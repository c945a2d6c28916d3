-- ===== src/Ptz/Presets/Goto.antt =====
-- GotoPreset of src/ptz_service.c with a token that SetPreset answered.
use thingino_onvif.Base.Int.{ℤ, pos}
use thingino_onvif.Base.{
  ℕ, ◌<◌, true, List, [], ◌∷◌, ◌++◌, Option, some, ◌≡◌, ◌⊎◌, refl, sym, ap, arith, Bytes, ltb, inl,
  inr, Bool-cases, some-eq_inj, ◌∙◌,
}
use thingino_onvif.Ptz.Numbers.{number_behind-print}
use thingino_onvif.Ptz.Presets.Buffers.{token_out_found, token_out-undefined, stored-eq_served}
use thingino_onvif.Ptz.Presets.{
  Preset, Command, numbered, labelled, init_presets, any_number, goto_number, goto_preset,
  goto_done, preset_prefix,
}
use thingino_onvif.Ptz.Presets.Set.{
  World, chosen, check_room, check_set_preset, prepare_set_preset, answer_set_preset, set_preset,
  set_preset-eq-ran, find_name, token_out, print_int,
}
use thingino_onvif.Ptz.Serves.{Serves, Serves-bind, Serves-elim}
use thingino_onvif.Ptz.{
  action_failed, PtzNode, PtzRequest, served, need, Page, check_profile, number_behind,
}
use thingino_onvif.Text.Query.{equal_ignoring_case}

-- The preset is in the list.
abbrev pub IsIn : Preset → List Preset → Type 0
IsIn p [] = ⊥
IsIn p (q ∷ ps) = (q ≡ p) ⊎ IsIn p ps

find_name-IsIn :
    (name : Bytes) (ps : List Preset) (p : Preset)
    → find_name name ps ≡ some p
    → IsIn p ps × (equal_ignoring_case p.name name ≡ true)
unfolding find_name
find_name-IsIn name [] p h = cc
find_name-IsIn name (q ∷ ps) p h = elim (Bool-cases (equal_ignoring_case q.name name)) [
  | inl same ↦
      let e : q ≡ p = some-eq_inj (rw same at h) in
      (inl e, ap (λ (r : Preset). equal_ignoring_case r.name name) (sym e) ∙ same)
  | inr other ↦ let later = find_name-IsIn name ps p (rw other at h) in (inr later.0, later.1)
]

any_number-IsIn : (p : Preset) (ps : List Preset) → IsIn p ps → any_number p.number ps ≡ true
unfolding any_number
any_number-IsIn p [] h = absurd h
any_number-IsIn p (q ∷ ps) (inl is) = ground (arith, ap (λ (r : Preset). r.number) is)
any_number-IsIn p (q ∷ ps) (inr h) = ground (arith, any_number-IsIn p ps h)

number_read :
    (n : ℕ) (p : Preset)
    → p.number ≡ pos n
    → n < 1000
    → number_behind preset_prefix (preset_prefix ++ print_int p.number) ≡ some p.number
number_read n p number small =
    ap (λ (m : ℤ). number_behind preset_prefix (preset_prefix ++ print_int m)) number
    ∙ number_behind-print preset_prefix n (omega arith)
    ∙ ap some (sym number)

goto_number_listed :
    (node : PtzNode) (token format : Bytes) (p : Preset) (presets : List Preset)
    → number_behind preset_prefix token ≡ some p.number
    → IsIn p presets
    → node.move_preset ≡ some format
    → goto_number node token presets ≡ served (numbered format p.number, goto_done)
unfolding goto_number
goto_number_listed node token format p presets read listed configured =
    rw (read, any_number-IsIn p presets listed, configured)

served-eq_inj {ℓ} : {A : Type ℓ} {a b : A} → served a ≡ served b → a ≡ b
served-eq_inj h = cc

-- The token that is printed for the first preset of a name leads back to that preset.
pub goto_preset-token_out :
    (node : PtzNode) (req : PtzRequest) (listing : Option Bytes) (name token format : Bytes)
    (p : Preset) (n : ℕ)
    → find_name name (init_presets node listing) ≡ some p
    → p.number ≡ pos n
    → token_out name (init_presets node listing) ≡ served token
    → check_profile node req ≡ served tt
    → req.body "PresetToken" ≡ some token
    → node.move_preset ≡ some format
    → goto_preset node req listing ≡ served (numbered format (pos n), goto_done)
unfolding goto_preset
goto_preset-token_out node req listing name token format p n found number out checked asked
      configured =
    let presets = init_presets node listing in
    let small : n < 1000 = elim (Bool-cases (ltb n 1000)) [
      | inl yes_small ↦ ground arith
      | inr large ↦ cc (out, (token_out-undefined name presets p n found number).1 (ground arith))
    ] in
    let text : preset_prefix ++ print_int p.number ≡ token =
      stored-eq_served 16 _ token (sym (token_out_found name presets p found) ∙ out) in
    let asked' : req.body "PresetToken" ≡ some (preset_prefix ++ print_int p.number) =
      asked ∙ ap some (sym text) in
    rw (checked, asked')
      (goto_number_listed node (preset_prefix ++ print_int p.number) format p presets
          (number_read n p number small) (find_name-IsIn name presets p found).0 configured
        ∙ ap (λ (m : ℤ). served (numbered format m, goto_done)) number)

-- What SetPreset answers, about the list behind its command.
abbrev IsReply : List Preset → Bytes → Page → Type 0
IsReply presets name page =
    (token : Bytes) × (page ≡ ("ptz_service_files/SetPreset.xml", ("%PRESET_TOKEN%", token) ∷ []))
    × (token_out name presets ≡ served token)

answer_set_preset-IsReply :
    (node : PtzNode) (req : PtzRequest) (w : World) (name : Bytes)
    → Serves (IsReply (init_presets node w.after) name) (answer_set_preset node req w name)
unfolding answer_set_preset
answer_set_preset-IsReply node req w name =
    let good = IsReply (init_presets node w.after) name in
    let room =
      check_room (req.body "PresetToken") (init_presets node w.before)
        (init_presets node w.after) in
    Serves-bind good room _ λ v grown.
      Serves-bind good (token_out name (init_presets node w.after)) _
        λ token out. (token, refl, out)

-- What is prepared names what the command names.
abbrev IsLabelled : Command × Bytes → Type 0
IsLabelled (command, name) = (format : Bytes) × (n : ℤ) × (command ≡ labelled format n name)

prepare_set_preset-IsLabelled :
    (node : PtzNode) (req : PtzRequest) (w : World)
    → Serves IsLabelled (prepare_set_preset node req w)
unfolding prepare_set_preset
prepare_set_preset-IsLabelled node req w =
    Serves-bind IsLabelled (check_set_preset node req w) _ λ u checked.
      Serves-bind IsLabelled
        (chosen w.uuid (req.body "PresetToken") (req.body "PresetName")
          (init_presets node w.before))
        _
        λ choice sound.
          Serves-bind IsLabelled (need node.set_preset 9 (action_failed 9)) _
            λ format configured. (format, choice.0, refl)

-- If the list behind the command of SetPreset has a preset with the name of the command, whose number
-- is not negative, then GotoPreset with the token of the reply moves to the first such preset.
pub goto_preset-set_preset :
    (node : PtzNode) (req : PtzRequest) (w : World) (format name : Bytes) (i : ℤ) (page : Page)
    (p : Preset) (n : ℕ)
    → set_preset node req w ≡ (some (labelled format i name), served page)
    → find_name name (init_presets node w.after) ≡ some p
    → p.number ≡ pos n
    → (token : Bytes) × (page ≡ ("ptz_service_files/SetPreset.xml", ("%PRESET_TOKEN%", token) ∷ []))
      × ((req' : PtzRequest) (move : Bytes)
          → check_profile node req' ≡ served tt
          → req'.body "PresetToken" ≡ some token
          → node.move_preset ≡ some move
          → goto_preset node req' w.after ≡ served (numbered move (pos n), goto_done))
goto_preset-set_preset node req w format name i page p n h found number =
    let (s, prepared, answered) =
      set_preset-eq-ran node req w (labelled format i name) (ap (λ r. r.0) h) in
    let (f, m, command) =
      Serves-elim IsLabelled (prepare_set_preset node req w)
        (prepare_set_preset-IsLabelled node req w) prepared in
    let same : s ≡ name = cc command in
    let (token, shown, out) =
      Serves-elim (IsReply (init_presets node w.after) s) (answer_set_preset node req w s)
        (answer_set_preset-IsReply node req w s) (sym answered ∙ ap (λ r. r.1) h) in
    (
      token,
      shown,
      λ req' move checked asked configured.
          goto_preset-token_out node req' w.after name token move p n found number
            (ap (λ (t : Bytes). token_out t (init_presets node w.after)) (sym same) ∙ out) checked
            asked configured,
    )
