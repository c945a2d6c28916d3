-- ===== src/Imaging/Settings/Failing.antt =====
-- SetImagingSettings where its array is overrun, and where the streamer does not take the changes.
use thingino_onvif.Base.Int.{pos}
use thingino_onvif.Base.{
  ℕ, ◌<◌, ◌≤◌, false, List, ◌∷◌, Option, none, some, Bytes, codes, length, get_elem?, ◌≡◌, refl, ap,
  ◌∙◌,
}
use thingino_onvif.Xml.{Nodes, Document}
use thingino_onvif.Xml.Pointer.{Mxml, get_element_ptr}
use thingino_onvif.Imaging.{
  Floats, ImagingEntry, Camera, Handler, served, refused, undefined, ◌>>=◌, ◌>>◌, return,
  find_imaging_entry, require_imaging_entry, ensure_imaging_available, source_token, Page,
}
use thingino_onvif.Imaging.Ends.{
  bind_served, bind_undefined, ensure_imaging_available_lem, require_imaging_entry_lem,
}
use thingino_onvif.Imaging.Streamer.{load_imaging_state, apply_imaging_changes}
use thingino_onvif.Imaging.Settings.{
  StreamerRun, max_commands, find_child_value, set_ircut, requested_changes, apply_commands,
  set_source, set_imaging_settings, settings_done, not_applied, logged,
}
use thingino_onvif.Imaging.Settings.Room.{
  asked, requested_changes-asked, within_array_over, within_array_room,
}

logged-imaging :
    (f : Floats) (line : Option Bytes) (v : Camera f.Float) → (logged f line v).imaging ≡ v.imaging
logged-imaging f none v = refl
logged-imaging f (some line) v = refl

logged-commands :
    (f : Floats) (line : Option Bytes) (v : Camera f.Float)
    → (logged f line v).commands ≡ v.commands
logged-commands f none v = refl
logged-commands f (some line) v = refl

-- A request that names a source and has settings, and whose cut filter is accepted, which leaves `v`.
module _ (f : Floats) (m : Mxml) (doc : Document) (run : StreamerRun f.Double)
    (w v : Camera f.Float) (i : ℕ) (e : ImagingEntry f.Float) (settings : Nodes)
    (found : find_imaging_entry (source_token doc) w.imaging ≡ some i)
    (there : get_elem? w.imaging i ≡ some e)
    (is_settings : get_element_ptr m doc none (codes "ImagingSettings") (some (codes "Body"))
      ≡ some settings)
    (accepted : set_ircut i e (find_child_value (codes "IrCutFilter") settings) w
      ≡ served tt v) where
  open f use {Float}

  abbrev pub wanted : List (Bytes × Float)
  wanted = asked f settings (load_imaging_state f run.before)

  abbrev end : List (Bytes × Float) → Handler Float Page
  end commands = apply_commands f commands run >> return (settings_done f)

  abbrev collected : Handler Float (List (Bytes × Float))
  collected = requested_changes f settings (load_imaging_state f run.before)

  set_source_lem : set_source f i e (some settings) run w ≡ (collected >>= end) v
  unfolding set_source
  set_source_lem =
      bind_served (set_ircut i e (find_child_value (codes "IrCutFilter") settings))
        (λ _. collected >>= end) w accepted

  set_imaging_settings_lem : set_imaging_settings f m doc run w ≡ (collected >>= end) v
  unfolding set_imaging_settings
  set_imaging_settings_lem =
      let rest = λ (x : ℕ × ImagingEntry Float).
        set_source f x.0 x.1
          (get_element_ptr m doc none (codes "ImagingSettings") (some (codes "Body"))) run in
      let named : Handler Float (ℕ × ImagingEntry Float) =
        require_imaging_entry (source_token doc) in
      bind_served ensure_imaging_available (λ _. named >>= rest) w
        (ensure_imaging_available_lem w i there)
      ∙ bind_served named rest w (require_imaging_entry_lem (source_token doc) w found there)
      ∙ rw is_settings set_source_lem

  apply_commands_failed :
      (c : Bytes × Float) (cs : List (Bytes × Float))
      → (apply_imaging_changes f (c ∷ cs) (pos 1500) run.takes run.files).1 ≡ false
      → end (c ∷ cs) v
        ≡ refused not_applied
            (logged f (apply_imaging_changes f (c ∷ cs) (pos 1500) run.takes run.files).0 v)
  unfolding apply_commands
  apply_commands_failed c cs failed = rw failed

  -- Settings with more than five readable numbers overrun the array of changes.
  pub set_imaging_settings_overrun :
      max_commands < length wanted → set_imaging_settings f m doc run w ≡ undefined
  set_imaging_settings_overrun many =
      set_imaging_settings_lem
      ∙ bind_undefined collected end v (
          requested_changes-asked f settings (load_imaging_state f run.before) v
          ∙ within_array_over wanted v many)

  -- Where the streamer does not take the changes, or does not show them in time, the request is refused;
  -- what its cut filter changed stays changed.
  pub set_imaging_settings-not_applied :
      (c : Bytes × Float) (cs : List (Bytes × Float))
      → wanted ≡ c ∷ cs
      → length wanted ≤ max_commands
      → (apply_imaging_changes f (c ∷ cs) (pos 1500) run.takes run.files).1 ≡ false
      → (u : Camera Float) × (set_imaging_settings f m doc run w ≡ refused not_applied u)
        × (u.imaging ≡ v.imaging)
        × (u.commands ≡ v.commands)
  set_imaging_settings-not_applied c cs is few failed =
      let result = apply_imaging_changes f (c ∷ cs) (pos 1500) run.takes run.files in
      (
        logged f result.0 v,
        set_imaging_settings_lem
            ∙ bind_served collected end v (
                requested_changes-asked f settings (load_imaging_state f run.before) v
                ∙ within_array_room wanted v few)
            ∙ ap (λ (commands : List (Bytes × Float)). end commands v) is
            ∙ apply_commands_failed c cs failed,
        logged-imaging f result.0 v,
        logged-commands f result.0 v,
      )
