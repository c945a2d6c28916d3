-- ===== src/Events/Pull/Passes.antt =====
-- What PullMessages delivers: nothing is lost, repeated or mislaid, and the length is right.
use thingino_onvif.Base.Int.{ℤ, pos, pos_part, leb_ℤ}
use thingino_onvif.Base.Mask.{test_bit-clear_bit_self, test_bit-clear_bit_ne}
use thingino_onvif.Base.{
  ℕ, zero, suc, ◌+◌, ◌-◌, Bool, true, false, List, [], ◌∷◌, Option, none, some, ◌≡◌, ◌≢◌, inl, inr,
  refl, sym, ap, ◌∙◌, arith, if◌then◌else◌, take, drop, length, Option-cases, Bool-cases,
}
use thingino_onvif.Events.Pull.{
  Session, Notification, notification, waiting, delivered, pull_pass, pull_deliver,
}
use thingino_onvif.Events.State.{EventShm, Shm, EventConf, ServiceContext}

abbrev with_one : Option Notification → List Notification → List Notification
with_one none rest = rest
with_one (some n) rest = n ∷ rest

-- Every notification that waits for slot `j`, in the order of the events.
abbrev pub all_waiting : ℕ → ℤ → List EventConf → List EventShm → List Notification
all_waiting j now [] events = []
all_waiting j now (ev ∷ evs) [] = []
all_waiting j now (ev ∷ evs) (e ∷ events) =
    with_one (waiting j now ev e) (all_waiting j now evs events)

take-nil : (n : ℕ) → take {A = Notification} n [] ≡ []
take-nil zero = refl
take-nil (suc n) = refl

drop-nil : (n : ℕ) → drop {A = Notification} n [] ≡ []
drop-nil zero = refl
drop-nil (suc n) = refl

-- The steps of a pass.
pass_full :
    (b : Bool) (limit : ℤ) (j : ℕ) (now : ℤ) (count : ℕ) (ev : EventConf) (evs : List EventConf)
    (e : EventShm) (events : List EventShm)
    → leb_ℤ limit (pos count) ≡ true
    → pull_pass b limit j now count (ev ∷ evs) (e ∷ events) ≡ ([], e ∷ events)
unfolding pull_pass
pass_full b limit j now count ev evs e events h = rw h

pass_skip :
    (b : Bool) (limit : ℤ) (j : ℕ) (now : ℤ) (count : ℕ) (ev : EventConf) (evs : List EventConf)
    (e : EventShm) (events : List EventShm)
    → leb_ℤ limit (pos count) ≡ false
    → waiting j now ev e ≡ none
    → pull_pass b limit j now count (ev ∷ evs) (e ∷ events) ≡ (
      (pull_pass b limit j now count evs events).0,
      e ∷ (pull_pass b limit j now count evs events).1,
    )
unfolding pull_pass
pass_skip b limit j now count ev evs e events h w = rw (h, w)

pass_take :
    (b : Bool) (limit : ℤ) (j : ℕ) (now : ℤ) (count : ℕ) (ev : EventConf) (evs : List EventConf)
    (e : EventShm) (events : List EventShm) (n : Notification)
    → leb_ℤ limit (pos count) ≡ false
    → waiting j now ev e ≡ some n
    → pull_pass b limit j now count (ev ∷ evs) (e ∷ events) ≡ (
      n ∷ (pull_pass b limit j now (count + 1) evs events).0,
      (if b then delivered j e else e) ∷ (pull_pass b limit j now (count + 1) evs events).1,
    )
unfolding pull_pass
pass_take b limit j now count ev evs e events n h w = rw (h, w)

-- Either pass yields what is waiting, up to the limit.
pub pull_pass-take :
    (b : Bool) (limit : ℤ) (j : ℕ) (now : ℤ) (count : ℕ) (evs : List EventConf)
    (events : List EventShm)
    → (pull_pass b limit j now count evs events).0
      ≡ take (pos_part limit - count) (all_waiting j now evs events)
pull_pass-take b limit j now count [] events = unfold pull_pass in sym (take-nil _)
pull_pass-take b limit j now count (ev ∷ evs) [] = unfold pull_pass in sym (take-nil _)
pull_pass-take b limit j now count (ev ∷ evs) (e ∷ events) =
    elim (Bool-cases (leb_ℤ limit (pos count))) [
      | inl full ↦
          let none_left : pos_part limit - count ≡ 0 = ground arith in
          rw (pass_full b limit j now count ev evs e events full, none_left)
      | inr room ↦
          let some_left : pos_part limit - count ≡ suc (pos_part limit - (count + 1)) =
            ground arith in
          elim (Option-cases (waiting j now ev e)) [
            | inl w ↦
                rw (pass_skip b limit j now count ev evs e events room w, w)
                  (pull_pass-take b limit j now count evs events)
            | inr (n, w) ↦
                rw (pass_take b limit j now count ev evs e events n room w, w, some_left)
                  (ap (◌∷◌ n) (pull_pass-take b limit j now (count + 1) evs events))
          ]
    ]

-- The first pass changes nothing.
pull_pass-measures :
    (limit : ℤ) (j : ℕ) (now : ℤ) (count : ℕ) (evs : List EventConf) (events : List EventShm)
    → (pull_pass false limit j now count evs events).1 ≡ events
pull_pass-measures limit j now count [] events = unfold pull_pass in refl
pull_pass-measures limit j now count (ev ∷ evs) [] = unfold pull_pass in refl
pull_pass-measures limit j now count (ev ∷ evs) (e ∷ events) =
    elim (Bool-cases (leb_ℤ limit (pos count))) [
      | inl full ↦ rw (pass_full false limit j now count ev evs e events full)
      | inr room ↦ elim (Option-cases (waiting j now ev e)) [
        | inl w ↦
            rw (pass_skip false limit j now count ev evs e events room w)
              (ap (◌∷◌ e) (pull_pass-measures limit j now count evs events))
        | inr (n, w) ↦
            rw (pass_take false limit j now count ev evs e events n room w)
              (ap (◌∷◌ e) (pull_pass-measures limit j now (count + 1) evs events))
      ]
    ]

waiting-delivered_self :
    (j : ℕ) (now : ℤ) (ev : EventConf) (e : EventShm) → waiting j now ev (delivered j e) ≡ none
unfolding waiting
waiting-delivered_self j now ev e = ground (arith, test_bit-clear_bit_self e.pull_notify j)

waiting-delivered_ne :
    (j k : ℕ) (now : ℤ) (ev : EventConf) (e : EventShm)
    → j ≢ k
    → waiting k now ev (delivered j e) ≡ waiting k now ev e
unfolding waiting notification
waiting-delivered_ne j k now ev e h = ground (
  arith,
  test_bit-clear_bit_ne e.pull_notify j k h,
  test_bit-clear_bit_ne e.pull_send_initialized j k h,
)

-- The second pass leaves what it did not yield, and no more.
pub pull_pass-drop :
    (limit : ℤ) (j : ℕ) (now : ℤ) (count : ℕ) (evs : List EventConf) (events : List EventShm)
    → all_waiting j now evs (pull_pass true limit j now count evs events).1
      ≡ drop (pos_part limit - count) (all_waiting j now evs events)
pull_pass-drop limit j now count [] events = sym (drop-nil _)
pull_pass-drop limit j now count (ev ∷ evs) [] = unfold pull_pass in sym (drop-nil _)
pull_pass-drop limit j now count (ev ∷ evs) (e ∷ events) =
    elim (Bool-cases (leb_ℤ limit (pos count))) [
      | inl full ↦
          let none_left : pos_part limit - count ≡ 0 = ground arith in
          rw (pass_full true limit j now count ev evs e events full, none_left)
      | inr room ↦
          let some_left : pos_part limit - count ≡ suc (pos_part limit - (count + 1)) =
            ground arith in
          elim (Option-cases (waiting j now ev e)) [
            | inl w ↦
                rw (pass_skip true limit j now count ev evs e events room w, w)
                  (pull_pass-drop limit j now count evs events)
            | inr (n, w) ↦
                rw
                  (
                    pass_take true limit j now count ev evs e events n room w,
                    waiting-delivered_self j now ev e,
                    w,
                    some_left,
                  )
                  (pull_pass-drop limit j now (count + 1) evs events)
          ]
    ]

-- The second pass touches no other slot's notifications.
pub pull_pass-other :
    (limit : ℤ) (j k : ℕ) (now later : ℤ) (count : ℕ) (evs : List EventConf)
    (events : List EventShm)
    → j ≢ k
    → all_waiting k later evs (pull_pass true limit j now count evs events).1
      ≡ all_waiting k later evs events
pull_pass-other limit j k now later count [] events h = refl
pull_pass-other limit j k now later count (ev ∷ evs) [] h = unfold pull_pass in refl
pull_pass-other limit j k now later count (ev ∷ evs) (e ∷ events) h =
    elim (Bool-cases (leb_ℤ limit (pos count))) [
      | inl full ↦ rw (pass_full true limit j now count ev evs e events full)
      | inr room ↦ elim (Option-cases (waiting j now ev e)) [
        | inl w ↦ rw (pass_skip true limit j now count ev evs e events room w) (
            ap (with_one (waiting k later ev e))
              (pull_pass-other limit j k now later count evs events h))
        | inr (n, w) ↦
            rw
              (
                pass_take true limit j now count ev evs e events n room w,
                waiting-delivered_ne j k later ev e h,
              )
              (ap (with_one (waiting k later ev e))
                (pull_pass-other limit j k now later (count + 1) evs events h))
      ]
    ]

pull_pass-length :
    (b : Bool) (limit : ℤ) (j : ℕ) (now : ℤ) (count : ℕ) (evs : List EventConf)
    (events : List EventShm)
    → length (pull_pass b limit j now count evs events).1 ≡ length events
pull_pass-length b limit j now count [] events = unfold pull_pass in refl
pull_pass-length b limit j now count (ev ∷ evs) [] = unfold pull_pass in refl
pull_pass-length b limit j now count (ev ∷ evs) (e ∷ events) =
    elim (Bool-cases (leb_ℤ limit (pos count))) [
      | inl full ↦ rw (pass_full b limit j now count ev evs e events full)
      | inr room ↦ elim (Option-cases (waiting j now ev e)) [
        | inl w ↦
            rw (pass_skip b limit j now count ev evs e events room w)
              (ap suc (pull_pass-length b limit j now count evs events))
        | inr (n, w) ↦
            rw (pass_take b limit j now count ev evs e events n room w)
              (ap suc (pull_pass-length b limit j now (count + 1) evs events))
      ]
    ]

module _ (ctx : ServiceContext) (session : Session) (now : ℤ) (shm : Shm) where
  -- The first pass of PullMessages, which gives the Content-Length, yields the same notifications
  -- as the second, which is sent.
  pub pull_deliver-measured :
      (pull_deliver ctx session now shm).measured ≡ (pull_deliver ctx session now shm).sent
  unfolding pull_deliver
  pull_deliver-measured =
      rw (pull_pass-measures session.limit session.sub_index now 0 ctx.events shm.events) (
        pull_pass-take false session.limit session.sub_index now 0 ctx.events shm.events
        ∙ sym (pull_pass-take true session.limit session.sub_index now 0 ctx.events shm.events))

  -- PullMessages sends the notifications that wait for the slot, in the order of the events, up to
  -- the message limit, and leaves exactly the rest of them waiting. A limit below 0 counts as 0.
  pub pull_deliver-splits :
      ((pull_deliver ctx session now shm).sent
        ≡ take (pos_part session.limit) (all_waiting session.sub_index now ctx.events shm.events))
      × (all_waiting session.sub_index now ctx.events
            (pull_deliver ctx session now shm).after.events
          ≡ drop (pos_part session.limit) (all_waiting session.sub_index now ctx.events shm.events))
  unfolding pull_deliver
  pull_deliver-splits =
      let whole : pos_part session.limit - 0 ≡ pos_part session.limit = omega arith in
      rw (pull_pass-measures session.limit session.sub_index now 0 ctx.events shm.events) (
        rw whole at
            (pull_pass-take true session.limit session.sub_index now 0 ctx.events shm.events),
        rw whole at (pull_pass-drop session.limit session.sub_index now 0 ctx.events shm.events),
      )

  -- PullMessages for one slot leaves the notifications of every other slot, and the table, alone.
  pub pull_deliver-other :
      (k : ℕ) (later : ℤ)
      → session.sub_index ≢ k
      → (all_waiting k later ctx.events (pull_deliver ctx session now shm).after.events
          ≡ all_waiting k later ctx.events shm.events)
        × ((pull_deliver ctx session now shm).after.subscriptions ≡ shm.subscriptions)
  unfolding pull_deliver
  pull_deliver-other k later h = (
    rw (pull_pass-measures session.limit session.sub_index now 0 ctx.events shm.events)
        (pull_pass-other session.limit session.sub_index k now later 0 ctx.events shm.events h),
    refl,
  )

  pub pull_deliver-length :
      length (pull_deliver ctx session now shm).after.events ≡ length shm.events
  unfolding pull_deliver
  pull_deliver-length =
      rw (pull_pass-measures session.limit session.sub_index now 0 ctx.events shm.events)
        (pull_pass-length true session.limit session.sub_index now 0 ctx.events shm.events)
