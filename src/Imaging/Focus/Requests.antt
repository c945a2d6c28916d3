-- ===== src/Imaging/Focus/Requests.antt =====
-- The requests for focus moves, whole.
use thingino_onvif.Base.{ℕ, not, Option, none, some, get_elem?, codes, ◌≡◌, refl, ◌⊎◌, inl, inr}
use thingino_onvif.Xml.{Nodes, Document}
use thingino_onvif.Xml.Pointer.{Mxml, get_element_ptr}
use thingino_onvif.Imaging.{
  Floats, ImagingEntry, Camera, Handler, Outcome, served, refused, undefined, ◌>>=◌, ◌>>◌, return,
  need, Page, ensure_imaging_available, require_imaging_entry, source_token, find_imaging_entry,
}
use thingino_onvif.Imaging.Ends.{
  Ends, Ends-bind, Ends-unless, Ends-need, IsNamed, require_imaging_entry-Ends,
  ensure_imaging_available-Ends,
}
use thingino_onvif.Imaging.Focus.{
  Move, perform, requested_move, move_source, move_done, imaging_move, not_capable, missing_focus,
  invalid_move,
}
use thingino_onvif.Imaging.Focus.Within.{MovedAs, Untouched, perform-Ends}
use thingino_onvif.Imaging.Reports.{focus_move_capable}

module _ (f : Floats) (m : Mxml) (doc : Document) (w : Camera f.Float) where
  open f use {Float}

  abbrev focus_element : Option Nodes
  focus_element = get_element_ptr m doc none (codes "Focus") (some (codes "Body"))

  abbrev NamedAt : ℕ → ImagingEntry Float → Type 0
  NamedAt i e =
      (find_imaging_entry (source_token doc) w.imaging ≡ some i) × (get_elem? w.imaging i ≡ some e)

  -- The source that the request names was moved as its focus element asks, and nothing else changed.
  abbrev pub NamedMoved : Camera Float → Type 0
  NamedMoved v =
      (i : ℕ) × (e : ImagingEntry Float) × (focus : Nodes) × (move : Move) × NamedAt i e
      × (focus_element ≡ some focus)
      × (requested_move f focus ≡ some move)
      × MovedAs f i e move w v

  abbrev pub NoneMoved : Camera Float → Type 0
  NoneMoved v = (v ≡ w) ⊎ ((i : ℕ) × (e : ImagingEntry Float) × NamedAt i e × Untouched f i e w v)

  module _ (i : ℕ) (e : ImagingEntry Float) (at_i : NamedAt i e) where
    performed :
        (focus : Nodes) (move : Move) (o : Outcome Float (Unit {0}))
        → focus_element ≡ some focus
        → requested_move f focus ≡ some move
        → Ends (λ _ v. MovedAs f i e move w v) (Untouched f i e w) ⊥ o
        → Ends (λ _ v. NamedMoved v) NoneMoved ⊥ o
    performed focus move (served x v) is_focus is_move h =
        (i, e, focus, move, at_i, is_focus, is_move, h)
    performed focus move (refused x v) is_focus is_move h = inr (i, e, at_i, h)
    performed focus move undefined is_focus is_move h = h

    move_source-Ends : Ends (λ _ v. NamedMoved v) NoneMoved ⊥ (move_source f i e focus_element w)
    unfolding move_source
    move_source-Ends =
        let P = λ (_ : Page) (v : Camera Float). NamedMoved v in
        let end = λ (move : Move). perform f i e move >> return (move_done f) in
        let choose = λ (n : Nodes). need (requested_move f n) invalid_move >>= end in
        Ends-unless P NoneMoved ⊥ (not (focus_move_capable e.focus_move)) not_capable
          (need focus_element missing_focus >>= choose) w (inl refl)
          λ capable.
            Ends-need P NoneMoved ⊥ focus_element missing_focus choose w (inl refl) λ n is_n.
              Ends-need P NoneMoved ⊥ (requested_move f n) invalid_move end w (inl refl)
                λ move is_move.
                  Ends-bind P NoneMoved ⊥ (λ _ v. NamedMoved v) (perform f i e move)
                    (λ _. return (move_done f)) w
                    (performed n move (perform f i e move w) is_n is_move
                      (perform-Ends f i e w move))
                    λ _ v moved. moved

  -- A request Move always has a result. If it is served, the source that it names was moved as the
  -- request asks: its kind of move is supported, the command that was built from its template, with
  -- fewer than 1024 bytes, is given the number of the request and a speed, both within the configured
  -- ranges, the source is idle, and an absolute or relative move has noted its position. If it is
  -- refused, no command was run, and at most a source was made idle.
  pub imaging_move-Ends : Ends (λ _ v. NamedMoved v) NoneMoved ⊥ (imaging_move f m doc w)
  unfolding imaging_move
  imaging_move-Ends =
      let P = λ (_ : Page) (v : Camera Float). NamedMoved v in
      let move_it = λ (x : ℕ × ImagingEntry Float). move_source f x.0 x.1 focus_element in
      let named : Handler Float (ℕ × ImagingEntry Float) =
        require_imaging_entry (source_token doc) in
      Ends-bind P NoneMoved ⊥ (λ _ v. v ≡ w) ensure_imaging_available (λ _. named >>= move_it) w
        (ensure_imaging_available-Ends NoneMoved ⊥ w (inl refl))
        λ _ u same. rw same (
          Ends-bind P NoneMoved ⊥ (IsNamed NoneMoved ⊥ w (inl refl) (source_token doc)) named
            move_it w (require_imaging_entry-Ends NoneMoved ⊥ w (inl refl) (source_token doc))
            λ (i, e) v (same', found, there). rw same' (move_source-Ends i e (found, there)))
