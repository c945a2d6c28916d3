-- ===== src/Text/Prefix.antt =====
-- A text in front of another.
use thingino_onvif.Base.{true, [], ◌∷◌, ◌++◌, ◌≡◌, refl, arith, Bytes, length, drop}
use thingino_onvif.Text.Topic.{starts_with}

pub starts_with-append : (s t : Bytes) → starts_with s (s ++ t) ≡ true
unfolding starts_with
starts_with-append [] t = refl
starts_with-append (c ∷ s) t = ground (arith, starts_with-append s t)

pub drop-append : (s t : Bytes) → drop (length s) (s ++ t) ≡ t
drop-append [] t = refl
drop-append (c ∷ s) t = drop-append s t
