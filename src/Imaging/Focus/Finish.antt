-- ===== src/Imaging/Focus/Finish.antt =====
-- How a focus move ends in src/imaging_service.c: its command, and the state of its source behind it.
use thingino_onvif.Base.{
  ℕ, zero, suc, ◌<◌, Bool, true, false, List, [], ◌∷◌, Option, none, some, if◌then◌else◌, Bytes,
  length, set, ◌≡◌, refl, String, sym, ap,
}
use thingino_onvif.Imaging.{
  Floats, idle, moving, ImagingEntry, Camera, Handler, ◌>>◌, refuse, filled, store, fits_command,
  command_size, ran, run_built,
}
use thingino_onvif.Imaging.Ends.{fits_command_short, Ends, Ends-bind}
use thingino_onvif.Imaging.Focus.{
  with_state, formatted, execute_formatted_command, run_move, focus_invalid,
}

set-set {ℓ} : {A : Type ℓ} (xs : List A) (i : ℕ) (a b : A) → set (set xs i a) i b ≡ set xs i b
set-set [] i a b = refl
set-set (x ∷ xs) zero a b = refl
set-set (x ∷ xs) (suc i) a b = ap (◌∷◌ x) (set-set xs i a b)

module _ (f : Floats) where
  open f use {Float, nought, format}

  -- Behind a move that ran the command of the template: the source at `i` is idle.
  abbrev pub Moved :
      ℕ
      → ImagingEntry Float
      → Option Bytes
      → Float
      → Float
      → (ImagingEntry Float → ImagingEntry Float)
      → Camera Float
      → Camera Float
      → Type 0
  Moved i e template a b finish w v =
      (t : Bytes) × (filled template ≡ some t)
      × (length (format t a b) < command_size)
      × (v ≡ record w {
        imaging = set w.imaging i (finish (with_state f idle e));
        commands = ran (filled (some (format t a b))) w.commands;
      })

  abbrev pub Idled : ℕ → ImagingEntry Float → Camera Float → Camera Float → Type 0
  Idled i e w v = v ≡ record w { imaging = set w.imaging i (with_state f idle e) }

  -- What is known behind a command: where it was built, it was run.
  abbrev Built : Option Bytes → Float → Float → Camera Float → Bool → Camera Float → Type 0
  Built template a b w false v = v ≡ w
  Built template a b w true v =
      (t : Bytes) × (filled template ≡ some t)
      × (length (format t a b) < command_size)
      × (v ≡ record w { commands = ran (filled (some (format t a b))) w.commands })

  execute_formatted_command-Ends :
      (template : Option Bytes) (a b : Float) (w : Camera Float) (Q : Camera Float → Type 0)
      → Ends (Built template a b w) Q ⊥ (execute_formatted_command f template a b w)
  unfolding execute_formatted_command formatted run_built
  execute_formatted_command-Ends none a b w Q = refl
  execute_formatted_command-Ends (some []) a b w Q = refl
  execute_formatted_command-Ends (some (c ∷ s)) a b w Q =
      go (fits_command (format (c ∷ s) a b)) (λ d. fits_command_short (format (c ∷ s) a b))
    where
      go :
          (o : Option Bytes)
          → ((d : Bytes)
              → o ≡ some d
              → (length (format (c ∷ s) a b) < command_size) × (format (c ∷ s) a b ≡ d))
          → Ends (Built (some (c ∷ s)) a b w) Q ⊥ (run_built o w)
      go none h = refl
      go (some d) h =
          let (short, same) = h d refl in
          (
            c ∷ s,
            refl,
            short,
            ap (λ (x : Bytes). record w { commands = ran (filled (some x)) w.commands }) (sym same),
          )

  module _ (i : ℕ) (e : ImagingEntry Float) (template : Option Bytes) (a b : Float)
      (finish : ImagingEntry Float → ImagingEntry Float) (detail : String) (w : Camera Float) where
    pub run_move-Ends :
        Ends
          (λ _ v. Moved i e template a b finish w v)
          (λ v. Idled i e w v)
          ⊥
          (run_move f i e template a b finish detail w)
    unfolding run_move
    run_move-Ends =
        Ends-bind (λ _ v. Moved i e template a b finish w v) (λ v. Idled i e w v) ⊥
          (Built template a b start) (execute_formatted_command f template a b) behind start
          (execute_formatted_command-Ends template a b start (λ v. Idled i e w v)) ends
      where
        start : Camera Float
        start = record w { imaging = set w.imaging i (with_state f moving e) }

        behind : Bool → Handler Float (Unit {0})
        behind built =
            if built
            then store i (finish (with_state f idle e))
            else (store i (with_state f idle e)
                >> refuse (focus_invalid "Focus command failed" detail))

        again :
            (e' : ImagingEntry Float) (commands : List Bytes)
            → record w { imaging = set start.imaging i e'; commands = commands }
              ≡ record w { imaging = set w.imaging i e'; commands = commands }
        again e' commands = rw (set-set w.imaging i (with_state f moving e) e')

        ends :
            (built : Bool) (v : Camera Float)
            → Built template a b start built v
            → Ends
                (λ _ v. Moved i e template a b finish w v)
                (λ v. Idled i e w v)
                ⊥
                (behind built v)
        ends false v h = rw h (again (with_state f idle e) w.commands)
        ends true v (t, is_t, short, h) = (
          t,
          is_t,
          short,
          rw h (
              again (finish (with_state f idle e)) (ran (filled (some (format t a b))) w.commands)),
        )
