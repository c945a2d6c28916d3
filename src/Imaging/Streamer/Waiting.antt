-- ===== src/Imaging/Streamer/Waiting.antt =====
-- The wait for the streamer, and the line that is written to it.
use native.Mathlib.Decide.{dec_lt}
use thingino_onvif.Base.Int.{ℤ}
use thingino_onvif.Base.{
  ℕ, zero, suc, ◌+◌, ◌*◌, ◌/◌, ◌<◌, ◌≤◌, Bool, true, false, ◌||◌, List, [], ◌∷◌, ◌++◌, Option, none,
  some, ltb, leb, Bytes, length, ◌≡◌, refl, arith, Bool-cases, inl, inr, codes, length-append,
  some-eq_inj, ◌↔◌,
}
use thingino_onvif.Imaging.{Floats}
use thingino_onvif.Imaging.Streamer.{
  StateFile, satisfied, wait_for, wait_interval_ms, wait_limit_of, payload, payload_behind,
  apply_imaging_changes, buffer_size, assignment, sent, fuel_for,
}

or_true : (b : Bool) → b || true ≡ true
or_true true = refl
or_true false = refl

-- Whether a test holds in one of `n` rounds from `k` on.
abbrev pub any_from : ℕ → ℕ → (ℕ → Bool) → Bool
any_from k zero p = false
any_from k (suc n) p = p k || any_from (suc k) n p

any_from_intro : (k n j : ℕ) (p : ℕ → Bool) → k ≤ j → j < k + n → p j ≡ true → any_from k n p ≡ true
any_from_intro k zero j p h l e = absurd (omega arith)
any_from_intro k (suc n) j p h l e = elim (dec_lt k j) [
  | yes later ↦ rw (any_from_intro (suc k) n j p later (omega arith) e) (or_true (p k))
  | no here ↦ let same : j ≡ k = omega arith in let at : p k ≡ true = rw (← same) e in rw at
]

any_from_elim :
    (k n : ℕ) (p : ℕ → Bool) → any_from k n p ≡ true → (j : ℕ) × (j < k + n) × (p j ≡ true)
any_from_elim k zero p h = cc
any_from_elim k (suc n) p h = elim (Bool-cases (p k)) [
  | inl here ↦ (k, omega arith, here)
  | inr no_one ↦ let (j, l, e) = any_from_elim (suc k) n p (rw no_one at h) in (j, omega arith, e)
]

sent_iff :
    (p : Option Bytes) (takes shown : Bool) (Shown : Type 0)
    → (shown ≡ true → Shown)
    → (Shown → shown ≡ true)
    → ((sent p takes shown).1 ≡ true)
      ↔ (((line : Bytes) × (p ≡ some line)) × (takes ≡ true) × Shown)
sent_iff none takes shown Shown to from = (λ h. cc, λ (l, t, s). cc l.1)
sent_iff (some line) false shown Shown to from = (λ h. cc, λ (l, t, s). cc t)
sent_iff (some line) true shown Shown to from =
    (λ h. ((line, refl), refl, to h), λ (l, t, s). from s)

module _ (f : Floats) where
  open f use {Float, Double}

  wait_for-any_from :
      (fuel : ℕ) (commands : List (Bytes × Float)) (files : ℕ → StateFile Double)
      (limit elapsed k n : ℕ)
      → n < fuel
      → elapsed ≡ wait_interval_ms * k
      → k + n ≡ limit / wait_interval_ms + 1
      → wait_for f fuel commands files limit elapsed k
        ≡ some (any_from k n (λ j. satisfied f commands (files j)))
  unfolding wait_for
  wait_for-any_from zero commands files limit elapsed k n h e r = absurd (omega arith)
  wait_for-any_from (suc fuel) commands files limit elapsed k zero h e r =
      let past : ltb limit elapsed ≡ true = ground arith in rw past
  wait_for-any_from (suc fuel) commands files limit elapsed k (suc n) h e r =
      let within : ltb limit elapsed ≡ false = ground arith in
      rw within (elim (Bool-cases (satisfied f commands (files k))) [
        | inl shown ↦ rw shown
        | inr hidden ↦ rw hidden (
            wait_for-any_from fuel commands files limit (elapsed + wait_interval_ms) (suc k) n
              (omega arith) (omega arith) (omega arith))
      ])

  -- A line that is written fits the buffer, which its bytes do not fill.
  pub payload_behind_fits :
      (written : Bytes) (commands : List (Bytes × Float)) (line : Bytes)
      → payload_behind f written commands ≡ some line
      → length line < buffer_size
  unfolding payload_behind
  payload_behind_fits written [] line h = elim (Bool-cases (leb buffer_size (length written + 1))) [
    | inl full ↦ cc (rw full at h)
    | inr room ↦
        let e : written ++ codes "\n" ≡ line = some-eq_inj (rw room at h) in
        rw (← e) (ground (arith, length-append written (codes "\n")))
  ]
  payload_behind_fits written (c ∷ cs) line h =
      elim (Bool-cases (leb buffer_size (length (written ++ assignment f c)))) [
        | inl full ↦ cc (rw full at h)
        | inr room ↦ payload_behind_fits (written ++ assignment f c) cs line (rw room at h)
      ]

  -- The states that are read while the wait lasts, one after each interval.
  abbrev pub ShowsInTime : List (Bytes × Float) → ℤ → (ℕ → StateFile Double) → Type 0
  ShowsInTime commands timeout_ms files =
      (k : ℕ) × (wait_interval_ms * k ≤ wait_limit_of timeout_ms)
      × (satisfied f commands (files k) ≡ true)

  module _ (c : Bytes × Float) (cs : List (Bytes × Float)) (timeout_ms : ℤ) (takes : Bool)
      (files : ℕ → StateFile Double) where
    -- Changes count as applied exactly when their line fits the buffer and the pipe takes it, and one of
    -- the states that are read after 0, 1, 2, … intervals up to the limit shows them all.
    pub apply_imaging_changes_iff :
        ((apply_imaging_changes f (c ∷ cs) timeout_ms takes files).1 ≡ true) ↔ (
          ((line : Bytes) × (payload f (c ∷ cs) ≡ some line))
          × (takes ≡ true)
          × ShowsInTime (c ∷ cs) timeout_ms files)
    unfolding apply_imaging_changes
    apply_imaging_changes_iff =
        let waited =
          wait_for-any_from (fuel_for f limit) (c ∷ cs) files limit 0 0
            (limit / wait_interval_ms + 1) (omega arith) (omega arith) (omega arith) in
        rw waited (
          sent_iff (payload f (c ∷ cs)) takes (any_from 0 (limit / wait_interval_ms + 1) in_round)
            (ShowsInTime (c ∷ cs) timeout_ms files)
            (λ h. in_time (any_from_elim 0 (limit / wait_interval_ms + 1) in_round h))
            (λ (k, l, e).
              any_from_intro 0 (limit / wait_interval_ms + 1) k in_round (omega arith) (omega arith)
                e))
      where
        limit : ℕ
        limit = wait_limit_of timeout_ms

        in_round : ℕ → Bool
        in_round k = satisfied f (c ∷ cs) (files k)

        in_time :
            (j : ℕ) × (j < 0 + (limit / wait_interval_ms + 1)) × (in_round j ≡ true)
            → ShowsInTime (c ∷ cs) timeout_ms files
        in_time (k, l, e) = (k, omega arith, e)
