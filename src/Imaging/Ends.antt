-- ===== src/Imaging/Ends.antt =====
-- Conditions on how a handler of src/imaging_service.c ends, through the steps of its `do` block.
use thingino_onvif.Base.{
  ℕ, Bool, true, false, not, List, [], ◌∷◌, Option, none, some, ◌≡◌, refl, Bytes, get_elem?,
  Bool-cases, inl, inr, arith, length, ◌<◌,
}
use thingino_onvif.Imaging.{
  ImagingEntry, find_entry_by, is_source, next, find_imaging_entry, require_imaging_entry, entry_at,
  source_at, ensure_imaging_available, no_imaging, is_none, Camera, Handler, Outcome, served,
  refused, undefined, ImagingFault, fits_command, command_size, ◌>>=◌, ◌>>◌, need, unless,
}

-- A result has `P`, what a fault leaves has `Q`, and the behaviour is undefined only where `D` holds.
abbrev pub Ends :
    {Float A : Type 0}
    → (A → Camera Float → Type 0)
    → (Camera Float → Type 0)
    → Type 0
    → Outcome Float A
    → Type 0
Ends P Q D (served a w) = P a w
Ends P Q D (refused e w) = Q w
Ends P Q D undefined = D

module _ {Float B : Type 0} (P : B → Camera Float → Type 0) (Q : Camera Float → Type 0)
    (D : Type 0) where
  -- What is known of the first step is handed on.
  pub Ends-bind :
      {A : Type 0} (R : A → Camera Float → Type 0) (m : Handler Float A) (k : A → Handler Float B)
      (w : Camera Float)
      → Ends R Q D (m w)
      → ((a : A) (v : Camera Float) → R a v → Ends P Q D (k a v))
      → Ends P Q D ((m >>= k) w)
  Ends-bind {A} R m k w h next = go (m w) h
    where
      go :
          (o : Outcome Float A)
          → Ends R Q D o
          → Ends P Q D
              (elim o [ served a v ↦ k a v | refused e v ↦ refused e v | undefined ↦ undefined ])
      go (served a v) r = next a v r
      go (refused e v) q = q
      go undefined x = x

  pub Ends-unless :
      (b : Bool) (e : ImagingFault) (k : Handler Float B) (w : Camera Float)
      → Q w
      → (b ≡ false → Ends P Q D (k w))
      → Ends P Q D ((unless b e >> k) w)
  Ends-unless true e k w q h = q
  Ends-unless false e k w q h = h refl

  pub Ends-need :
      {A : Type 0} (o : Option A) (e : ImagingFault) (k : A → Handler Float B) (w : Camera Float)
      → Q w
      → ((a : A) → o ≡ some a → Ends P Q D (k a w))
      → Ends P Q D ((need o e >>= k) w)
  Ends-need none e k w q h = q
  Ends-need (some a) e k w q h = h a refl

pub not-not : (b : Bool) → not b ≡ false → b ≡ true
not-not true h = refl
not-not false h = cc

-- A command that is built fits its buffer.
pub fits_command_short :
    (s : Bytes) {c : Bytes} → fits_command s ≡ some c → (length s < command_size) × (s ≡ c)
unfolding fits_command
fits_command_short s h = ground arith

-- A step whose end is known.
pub bind_served :
    {Float A B : Type 0} (m : Handler Float A) (k : A → Handler Float B) (w : Camera Float) {a : A}
    {v : Camera Float}
    → m w ≡ served a v
    → (m >>= k) w ≡ k a v
bind_served m k w h = rw (h, ◌>>=◌)

pub bind_undefined :
    {Float A B : Type 0} (m : Handler Float A) (k : A → Handler Float B) (w : Camera Float)
    → m w ≡ undefined
    → (m >>= k) w ≡ undefined
bind_undefined m k w h = rw (h, ◌>>=◌)

-- A position that is found is one of the list.
abbrev Finds : {Float : Type 0} → List (ImagingEntry Float) → Option ℕ → Type 0
Finds es none = Unit
Finds {Float} es (some i) = (e : ImagingEntry Float) × (get_elem? es i ≡ some e)

Finds-next :
    {Float : Type 0} (e : ImagingEntry Float) (es : List (ImagingEntry Float)) (o : Option ℕ)
    → Finds es o
    → Finds (e ∷ es) (next o)
Finds-next e es none h = tt
Finds-next e es (some i) h = h

find_entry_by-Finds :
    {Float : Type 0} (token : Bytes) (es : List (ImagingEntry Float))
    → Finds es (find_entry_by token es)
unfolding find_entry_by
find_entry_by-Finds token [] = tt
find_entry_by-Finds token (e ∷ es) = elim (Bool-cases (is_source token e)) [
  | inl here ↦ rw here (e, refl)
  | inr later ↦ rw later (Finds-next e es (find_entry_by token es) (find_entry_by-Finds token es))
]

find_imaging_entry-Finds :
    {Float : Type 0} (token : Option Bytes) (es : List (ImagingEntry Float))
    → Finds es (find_imaging_entry token es)
unfolding find_imaging_entry
find_imaging_entry-Finds token [] = tt
find_imaging_entry-Finds none (e ∷ es) = (e, refl)
find_imaging_entry-Finds (some []) (e ∷ es) = (e, refl)
find_imaging_entry-Finds (some (c ∷ s)) (e ∷ es) = find_entry_by-Finds (c ∷ s) (e ∷ es)

module _ {Float : Type 0} (Q : Camera Float → Type 0) (D : Type 0) (w : Camera Float)
    (q : Q w) where
  -- The position that is found for a token, and the source there.
  abbrev pub IsNamed : Option Bytes → ℕ × ImagingEntry Float → Camera Float → Type 0
  IsNamed token (i, e) v =
      (v ≡ w) × (find_imaging_entry token w.imaging ≡ some i) × (get_elem? w.imaging i ≡ some e)

  module _ (token : Option Bytes) where
    entry_at-Ends :
        (i : ℕ) (o : Option (ImagingEntry Float)) {e : ImagingEntry Float}
        → find_imaging_entry token w.imaging ≡ some i
        → get_elem? w.imaging i ≡ o
        → o ≡ some e
        → Ends (IsNamed token) Q D (entry_at i o w)
    entry_at-Ends i none found link h = cc
    entry_at-Ends i (some e) found link h = (refl, found, link)

    source_at-Ends :
        (o : Option ℕ)
        → find_imaging_entry token w.imaging ≡ o
        → Finds w.imaging o
        → Ends (IsNamed token) Q D (source_at o w)
    source_at-Ends none found h = q
    source_at-Ends (some i) found (e, h) = entry_at-Ends i (get_elem? w.imaging i) found refl h

    -- A step that names a source changes nothing, and gives it with its position.
    pub require_imaging_entry-Ends : Ends (IsNamed token) Q D (require_imaging_entry token w)
    unfolding require_imaging_entry
    require_imaging_entry-Ends =
        source_at-Ends (find_imaging_entry token w.imaging) refl
          (find_imaging_entry-Finds token w.imaging)

  pub ensure_imaging_available-Ends : Ends (λ _ v. v ≡ w) Q D (ensure_imaging_available w)
  unfolding ensure_imaging_available
  ensure_imaging_available-Ends = go w.imaging
    where
      go :
          (es : List (ImagingEntry Float))
          → Ends {A = Unit {0}} (λ _ v. v ≡ w) Q D (unless (is_none es) no_imaging w)
      go [] = q
      go (e ∷ es) = refl

-- The first steps of a handler, where the source is known.
pub ensure_imaging_available_lem :
    {Float : Type 0} (v : Camera Float) (i : ℕ) {e : ImagingEntry Float}
    → get_elem? v.imaging i ≡ some e
    → ensure_imaging_available v ≡ served tt v
unfolding ensure_imaging_available
ensure_imaging_available_lem {Float} v i {e} h = go v.imaging h
  where
    go :
        (es : List (ImagingEntry Float))
        → get_elem? es i ≡ some e
        → unless (is_none es) no_imaging v ≡ served tt v
    go [] h = cc
    go (x ∷ es) h = refl

pub require_imaging_entry_lem :
    {Float : Type 0} (token : Option Bytes) (v : Camera Float) {i : ℕ} {e : ImagingEntry Float}
    → find_imaging_entry token v.imaging ≡ some i
    → get_elem? v.imaging i ≡ some e
    → require_imaging_entry token v ≡ served (i, e) v
unfolding require_imaging_entry
require_imaging_entry_lem token v found there = rw (found, there)
