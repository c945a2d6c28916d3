-- ===== src/Events/Pull/Waiting.antt =====
-- The wait of PullMessages ends, and for the right reason.
use thingino_onvif.Base.Int.{ℤ, leb_ℤ}
use thingino_onvif.Base.{
  ℕ, true, false, List, [], ◌∷◌, none, some, ◌≡◌, ◌≢◌, arith, ◌↔◌, inl, inr, Bool-cases,
}
use thingino_onvif.Events.Pull.{any_pending, wait_for_message}
use thingino_onvif.Events.State.{EventShm, EventConf}

abbrev pub Observation : Type 0
Observation = ℤ × List EventShm

-- One observation is behind the deadline.
pub data Late (deadline : ℤ) : List Observation → Type 0 where
  here :
      {o : Observation} {rest : List Observation}
      → leb_ℤ o.0 deadline ≡ false
      → Late deadline (o ∷ rest)
  there :
      {o : Observation} {rest : List Observation} → Late deadline rest → Late deadline (o ∷ rest)

-- An observation in time shows a message for the slot.
pub data Seen (deadline : ℤ) (j : ℕ) (evs : List EventConf) : List Observation → Type 0 where
  now_seen :
      {o : Observation} {rest : List Observation}
      → leb_ℤ o.0 deadline ≡ true
      → any_pending j evs o.1 ≡ true
      → Seen deadline j evs (o ∷ rest)
  then_seen :
      {o : Observation} {rest : List Observation}
      → leb_ℤ o.0 deadline ≡ true
      → Seen deadline j evs rest
      → Seen deadline j evs (o ∷ rest)

module _ (deadline : ℤ) (j : ℕ) (evs : List EventConf) where
  wait_ends :
      (obs : List Observation) → Late deadline obs → wait_for_message deadline j evs obs ≢ none
  unfolding wait_for_message
  wait_ends [] l = elim l [ ]
  wait_ends ((t, events) ∷ rest) (here h) = ground arith
  wait_ends ((t, events) ∷ rest) (there l) = ground (arith, wait_ends rest l)

  wait_sound :
      (obs : List Observation)
      → wait_for_message deadline j evs obs ≡ some true
      → Seen deadline j evs obs
  unfolding wait_for_message
  wait_sound [] h = cc
  wait_sound ((t, events) ∷ rest) h = elim (Bool-cases (leb_ℤ t deadline)) [
    | inl in_time ↦ elim (Bool-cases (any_pending j evs events)) [
      | inl pending ↦ now_seen in_time pending
      | inr nothing ↦ then_seen in_time (wait_sound rest (rw (in_time, nothing) at h))
    ]
    | inr late ↦ absurd (cc (rw late at h))
  ]

  wait_complete :
      (obs : List Observation)
      → Seen deadline j evs obs
      → wait_for_message deadline j evs obs ≡ some true
  unfolding wait_for_message
  wait_complete [] s = elim s [ ]
  wait_complete ((t, events) ∷ rest) (now_seen h k) = rw (h, k)
  wait_complete ((t, events) ∷ rest) (then_seen h s) = ground (arith, wait_complete rest s)

  -- If the clock is behind the deadline at some observation, PullMessages stops waiting, and it finds
  -- a message exactly when an observation that is in time, with all before it in time, shows one.
  pub wait_for_message-Seen :
      (obs : List Observation)
      → Late deadline obs
      → (wait_for_message deadline j evs obs ≢ none)
        × ((wait_for_message deadline j evs obs ≡ some true) ↔ Seen deadline j evs obs)
  wait_for_message-Seen obs l = (wait_ends obs l, (wait_sound obs, wait_complete obs))
