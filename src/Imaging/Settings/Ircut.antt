-- ===== src/Imaging/Settings/Ircut.antt =====
-- The cut filter of SetImagingSettings.
use thingino_onvif.Base.{
  ℕ, zero, suc, true, false, not, List, [], ◌∷◌, Option, none, some, Bytes, if◌then◌else◌, ◌≡◌,
  refl, sym, ap, ◌∙◌, Bool-cases, inl, inr, get_elem?, set, some-eq_inj,
}
use thingino_onvif.Imaging.{
  ImagingEntry, IrcutMode, unspecified, on, off, auto, Camera, Outcome, served, refused, undefined,
  ◌>>◌, unless, filled, ran, execute_backend_command,
}
use thingino_onvif.Imaging.Ends.{Ends, Ends-unless, not-not}
use thingino_onvif.Imaging.Settings.{
  set_ircut, ircut_mode_from_string, supports, ircut_command, same_mode, is_unspecified, bad_ircut,
  change_mode,
}

same_mode_eq : (a b : IrcutMode) → same_mode a b ≡ true → a ≡ b
unfolding same_mode
same_mode_eq unspecified unspecified h = refl
same_mode_eq unspecified on h = cc
same_mode_eq unspecified off h = cc
same_mode_eq unspecified auto h = cc
same_mode_eq on unspecified h = cc
same_mode_eq on on h = refl
same_mode_eq on off h = cc
same_mode_eq on auto h = cc
same_mode_eq off unspecified h = cc
same_mode_eq off on h = cc
same_mode_eq off off h = refl
same_mode_eq off auto h = cc
same_mode_eq auto unspecified h = cc
same_mode_eq auto on h = cc
same_mode_eq auto off h = cc
same_mode_eq auto auto h = refl

set_self {ℓ} :
    {A : Type ℓ} (xs : List A) (i : ℕ) (a : A) → get_elem? xs i ≡ some a → set xs i a ≡ xs
set_self [] i a h = refl
set_self (x ∷ xs) zero a h = ap (λ y. y ∷ xs) (sym (some-eq_inj h))
set_self (x ∷ xs) (suc i) a h = ap (◌∷◌ x) (set_self xs i a h)

module _ {Float : Type 0} (w : Camera Float) (i : ℕ) (e : ImagingEntry Float)
    (there : get_elem? w.imaging i ≡ some e) where
  -- The source has the mode; its command was run only if it had another one.
  abbrev pub HasMode : IrcutMode → Camera Float → Type 0
  HasMode mode v = v ≡ record w {
    imaging = set w.imaging i (record e { ircut_mode = mode });
    commands =
        if same_mode mode e.ircut_mode
        then w.commands
        else ran (filled (ircut_command e mode)) w.commands;
  }

  -- A mode that is asked for is one of the three and supported; without one nothing changes.
  abbrev pub ModeAsAsked : Option Bytes → Camera Float → Type 0
  ModeAsAsked none v = v ≡ w
  ModeAsAsked (some value) v =
      (is_unspecified (ircut_mode_from_string value) ≡ false)
      × (supports e (ircut_mode_from_string value) ≡ true)
      × HasMode (ircut_mode_from_string value) v

  change_mode-HasMode :
      (mode : IrcutMode) → Ends (λ _ v. HasMode mode v) (λ v. v ≡ w) ⊥ (change_mode i e mode w)
  unfolding execute_backend_command
  change_mode-HasMode mode = elim (Bool-cases (same_mode mode e.ircut_mode)) [
    | inl same ↦ rw same (
        ap (λ (es : List (ImagingEntry Float)). record w { imaging = es })
          (sym (
            ap (λ (m : IrcutMode). set w.imaging i (record e { ircut_mode = m }))
              (same_mode_eq mode e.ircut_mode same)
            ∙ set_self w.imaging i e there)))
    | inr other ↦ rw other refl
  ]

  as_asked :
      (value : Bytes)
      → is_unspecified (ircut_mode_from_string value) ≡ false
      → supports e (ircut_mode_from_string value) ≡ true
      → (o : Outcome Float (Unit {0}))
      → Ends (λ _ v. HasMode (ircut_mode_from_string value) v) (λ v. v ≡ w) ⊥ o
      → Ends (λ _ v. ModeAsAsked (some value) v) (λ v. v ≡ w) ⊥ o
  as_asked value known supported (served x v) h = (known, supported, h)
  as_asked value known supported (refused x v) h = h
  as_asked value known supported undefined h = h

  -- The cut filter of a request is refused, and nothing changed, or it is a supported mode that the source
  -- has afterwards, and the command of the mode was run exactly if the source had another one.
  pub set_ircut-ModeAsAsked :
      (value : Option Bytes)
      → Ends (λ _ v. ModeAsAsked value v) (λ v. v ≡ w) ⊥ (set_ircut i e value w)
  unfolding set_ircut
  set_ircut-ModeAsAsked none = refl
  set_ircut-ModeAsAsked (some value) =
      let P = λ (_ : Unit {0}) (v : Camera Float). ModeAsAsked (some value) v in
      let Q = λ (v : Camera Float). v ≡ w in
      let mode = ircut_mode_from_string value in
      let supported = unless (not (supports e mode)) (bad_ircut false) >> change_mode i e mode in
      Ends-unless P Q ⊥ (is_unspecified mode) (bad_ircut true) supported w refl λ known.
        Ends-unless P Q ⊥ (not (supports e mode)) (bad_ircut false) (change_mode i e mode) w refl
          λ is_supported.
            as_asked value known (not-not (supports e mode) is_supported) (change_mode i e mode w)
              (change_mode-HasMode mode)
