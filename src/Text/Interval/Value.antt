-- ===== src/Text/Interval/Value.antt =====
-- A duration in hours, minutes and seconds reads back as its number of seconds.
use thingino_onvif.Base.Int.{pos}
use thingino_onvif.Base.{
  ℕ, ◌+◌, ◌*◌, ◌^◌, ◌<◌, false, [], ◌∷◌, ◌++◌, ◌≡◌, refl, suc, arith, Bytes, codes,
}
use thingino_onvif.Text.Decimal.RoundTrip.{scan_int-print}
use thingino_onvif.Text.Decimal.{is_digit, print}
use thingino_onvif.Text.Interval.{scan_pairs, first_pair, interval2sec}

-- The text of `h` hours, `m` minutes and `s` seconds.
abbrev pub duration : ℕ → ℕ → ℕ → Bytes
duration h m s = codes "PT" ++ (print h ++ b'H' ∷ (print m ++ b'M' ∷ (print s ++ b'S' ∷ [])))

scan_pairs_step :
    (n k c : ℕ) (rest : Bytes)
    → is_digit c ≡ false
    → scan_pairs (suc n) (print k ++ c ∷ rest)
      ≡ ((pos k, c) ∷ (scan_pairs n rest).0, (scan_pairs n rest).1)
unfolding scan_pairs
scan_pairs_step n k c rest h = rw (scan_pairs, scan_int-print k (c ∷ rest) h)

scan_none : scan_pairs 0 [] ≡ ([], false)
unfolding scan_pairs
scan_none = refl

scan_three :
    (h m s : ℕ)
    → scan_pairs 3 (print h ++ b'H' ∷ (print m ++ b'M' ∷ (print s ++ b'S' ∷ [])))
      ≡ ((pos h, b'H') ∷ (pos m, b'M') ∷ (pos s, b'S') ∷ [], false)
unfolding is_digit
scan_three h m s = rw (scan_pairs_step 2 h b'H' (print m ++ b'M' ∷ (print s ++ b'S' ∷ [])) refl) (
    rw (scan_pairs_step 1 m b'M' (print s ++ b'S' ∷ []) refl)
      (rw (scan_pairs_step 0 s b'S' [] refl) (rw scan_none)))

value :
    (h m s : ℕ)
    → h * 3600 + m * 60 + s < 2 ^ 31
    → first_pair (pos h, b'H') ((pos m, b'M') ∷ (pos s, b'S') ∷ []) ≡ pos (h * 3600 + m * 60 + s)
unfolding first_pair
value h m s fits = ground arith

-- The text of a duration of hours, minutes and seconds reads as its number of seconds, if that is
-- below 2^31.
pub interval2sec-duration :
    (h m s : ℕ)
    → h * 3600 + m * 60 + s < 2 ^ 31
    → interval2sec (duration h m s) ≡ pos (h * 3600 + m * 60 + s)
unfolding interval2sec
interval2sec-duration h m s fits = rw (scan_three h m s) (value h m s fits)
