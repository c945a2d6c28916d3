-- ===== src/Events/Slots/Start.antt =====
-- The memory that the notify server sets up is well formed.
use thingino_onvif.Base.{ℕ, zero, suc, inl, refl, arith, replicate, length-replicate, All}
use thingino_onvif.Events.Slots.Ids.{SlotIsValid, UniqueIds, IsWellFormed}
use thingino_onvif.Events.Slots.{is_unused}
use thingino_onvif.Events.State.{cleared, silent, initial}

cleared-SlotIsValid : (n : ℕ) → All SlotIsValid (replicate n cleared)
unfolding is_unused
cleared-SlotIsValid zero = tt
cleared-SlotIsValid (suc n) = (
  record { free_zero = λ u. refl; zero_free = λ z. refl; bounded = omega arith },
  cleared-SlotIsValid n,
)

cleared-UniqueIds : (n : ℕ) → UniqueIds (replicate n cleared)
cleared-UniqueIds zero = tt
cleared-UniqueIds (suc n) = (inl refl, cleared-UniqueIds n)

pub initial-IsWellFormed : IsWellFormed initial
initial-IsWellFormed = record {
  slots = length-replicate 32 cleared;
  records = length-replicate 8 silent;
  valid = cleared-SlotIsValid 32;
  unique = cleared-UniqueIds 32;
}
