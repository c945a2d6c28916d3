-- ===== src/Imaging/Builder/Cut.antt =====
-- What the builder writes, against the whole text.
use thingino_onvif.Base.{
  ℕ, zero, suc, ◌+◌, ◌-◌, ◌<◌, ◌≤◌, List, [], ◌∷◌, ◌++◌, Bytes, length, take, ◌≡◌, refl, sym, ap,
  arith, zero-add, append_assoc, append-nil,
}
use native.Mathlib.Decide.{dec_lt}
use thingino_onvif.Imaging.Builder.{Builder, xml_builder_init, xml_builder_append, append_all}

abbrev pub joined : List Bytes → Bytes
joined [] = []
joined (p ∷ ps) = p ++ joined ps

take_all : (n : ℕ) (s : Bytes) → length s ≤ n → take n s ≡ s
take_all zero [] h = refl
take_all zero (c ∷ s) h = absurd (omega arith)
take_all (suc n) [] h = refl
take_all (suc n) (c ∷ s) h = ap (◌∷◌ c) (take_all n s (omega arith))

take_short : (n : ℕ) (s t : Bytes) → n ≤ length s → take n (s ++ t) ≡ take n s
take_short zero s t h = refl
take_short (suc n) [] t h = absurd (omega arith)
take_short (suc n) (c ∷ s) t h = ap (◌∷◌ c) (take_short n s t (omega arith))

take_nil : (n : ℕ) → take {A = ℕ} n [] ≡ []
take_nil zero = refl
take_nil (suc n) = refl

take_past : (n : ℕ) (s t : Bytes) → take (length s + n) (s ++ t) ≡ s ++ take n t
take_past n [] t = rw zero-add
take_past n (c ∷ s) t =
    let shift : suc (length s) + n ≡ suc (length s + n) = omega arith in
    rw shift (ap (◌∷◌ c) (take_past n s t))

abbrev builder : Bytes → ℕ → Builder
builder w r = record { written = w; remaining = r }

append_fits :
    (w p : Bytes) (r : ℕ)
    → length p < r
    → xml_builder_append (builder w r) p ≡ builder (w ++ p) (r - length p)
unfolding xml_builder_append
append_fits w p r h = ground arith

append_cut :
    (w p : Bytes) (r : ℕ)
    → 0 < r
    → r ≤ length p
    → xml_builder_append (builder w r) p ≡ builder (w ++ take (r - 1) p) 0
unfolding xml_builder_append
append_cut w p r h k = ground arith

append_all_full : (w : Bytes) (pieces : List Bytes) → (append_all (builder w 0) pieces).written ≡ w
unfolding append_all xml_builder_append
append_all_full w [] = refl
append_all_full w (p ∷ ps) = append_all_full w ps

append_all-nil : (b : Builder) → append_all b [] ≡ b
unfolding append_all
append_all-nil b = refl

append_all-cons :
    (b : Builder) (p : Bytes) (ps : List Bytes)
    → append_all b (p ∷ ps) ≡ append_all (xml_builder_append b p) ps
unfolding append_all
append_all-cons b p ps = refl

-- What is appended to a builder that is not full is cut at one byte before its end.
append_all-take :
    (w : Bytes) (r : ℕ) (pieces : List Bytes)
    → 0 < r
    → (append_all (builder w r) pieces).written ≡ w ++ take (r - 1) (joined pieces)
append_all-take w r [] h = rw (append_all-nil (builder w r), take_nil (r - 1)) (sym (append-nil w))
append_all-take w r (p ∷ ps) h = elim (dec_lt (length p) r) [
  | yes fits ↦
      let split : r - 1 ≡ length p + (r - length p - 1) = omega arith in
      rw
        (
          append_all-cons (builder w r) p ps,
          append_fits w p r fits,
          append_all-take (w ++ p) (r - length p) ps (omega arith),
          split,
          take_past (r - length p - 1) p (joined ps),
        )
        (append_assoc w p (take (r - length p - 1) (joined ps)))
  | no long ↦ rw (
    append_all-cons (builder w r) p ps,
    append_cut w p r h (omega arith),
    append_all_full (w ++ take (r - 1) p) ps,
    take_short (r - 1) p (joined ps) (omega arith),
  )
]

-- However long the pieces are, a report holds the beginning of their whole text, up to one byte less
-- than the size of its array.
pub append_all-joined :
    (size : ℕ) (pieces : List Bytes)
    → 0 < size
    → (append_all (xml_builder_init size) pieces).written ≡ take (size - 1) (joined pieces)
unfolding xml_builder_init
append_all-joined size pieces h = append_all-take [] size pieces h
