-- ===== src/Text/Tokens.antt =====
-- `strtok` and `strsep` of the C library, as the lists of pieces that the callers' loops see.
use thingino_onvif.Base.{
  ℕ, Bool, false, List, [], ◌∷◌, ◌++◌, ◌≡◌, ◌≢◌, refl, ◌∙◌, arith, ◌==◌, if◌then◌else◌, Bytes, All,
  append_assoc, append-nil,
}

abbrev emit : Bytes → List Bytes → List Bytes
emit [] rest = rest
emit (c ∷ cs) rest = (c ∷ cs) ∷ rest

-- `strtok` with one separator: the pieces that are not empty.
unfoldable pub strtok : ℕ → Bytes → Bytes → List Bytes
strtok sep [] cur = emit cur []
strtok sep (c ∷ s) cur =
    let cut = emit cur (strtok sep s []) in
    let more = strtok sep s (cur ++ c ∷ []) in if c == sep then cut else more

-- `strsep`: every piece, empty ones too.
unfoldable pub strsep : (ℕ → Bool) → Bytes → Bytes → List Bytes
strsep is_sep [] cur = cur ∷ []
strsep is_sep (c ∷ s) cur =
    let cut = cur ∷ strsep is_sep s [] in
    let more = strsep is_sep s (cur ++ c ∷ []) in if is_sep c then cut else more

abbrev pub Lacks : ℕ → Bytes → Type 0
Lacks sep = All (λ c. (c == sep) ≡ false)

-- A piece without separators is read whole.
pub strtok-append :
    (sep : ℕ) (p rest cur : Bytes)
    → Lacks sep p
    → strtok sep (p ++ rest) cur ≡ strtok sep rest (cur ++ p)
unfolding strtok
strtok-append sep [] rest cur h = rw append-nil
strtok-append sep (c ∷ p) rest cur (hc, h) =
    rw hc (strtok-append sep p rest (cur ++ c ∷ []) h ∙ rw append_assoc)

pub strtok_at_sep :
    (sep c : ℕ) (s cur : Bytes) → strtok sep (sep ∷ s) (c ∷ cur) ≡ (c ∷ cur) ∷ strtok sep s []
unfolding strtok
strtok_at_sep sep c s cur = ground arith

pub strsep-append :
    (is_sep : ℕ → Bool) (p rest cur : Bytes)
    → All (λ c. is_sep c ≡ false) p
    → strsep is_sep (p ++ rest) cur ≡ strsep is_sep rest (cur ++ p)
unfolding strsep
strsep-append is_sep [] rest cur h = rw append-nil
strsep-append is_sep (c ∷ p) rest cur (hc, h) =
    rw hc (strsep-append is_sep p rest (cur ++ c ∷ []) h ∙ rw append_assoc)

-- A text without separators is one piece.
pub strtok_whole : (sep : ℕ) (p : Bytes) → p ≢ [] → Lacks sep p → strtok sep p [] ≡ p ∷ []
strtok_whole sep [] ne h = absurd (ne refl)
strtok_whole sep (c ∷ p) ne h = rw append-nil at (strtok-append sep (c ∷ p) [] [] h ∙ last)
  where
    last : strtok sep [] ([] ++ (c ∷ p)) ≡ (c ∷ p) ∷ []
    last = unfold strtok in refl

-- A piece in front of a separator is cut off.
pub strtok_piece :
    (sep : ℕ) (p rest : Bytes)
    → p ≢ []
    → Lacks sep p
    → strtok sep (p ++ sep ∷ rest) [] ≡ p ∷ strtok sep rest []
strtok_piece sep [] rest ne h = absurd (ne refl)
strtok_piece sep (c ∷ p) rest ne h =
    strtok-append sep (c ∷ p) (sep ∷ rest) [] h ∙ strtok_at_sep sep c rest p

pub strsep_whole :
    (is_sep : ℕ → Bool) (p cur : Bytes)
    → All (λ c. is_sep c ≡ false) p
    → strsep is_sep p cur ≡ (cur ++ p) ∷ []
strsep_whole is_sep p cur h = rw append-nil at (strsep-append is_sep p [] cur h ∙ last)
  where
    last : strsep is_sep [] (cur ++ p) ≡ (cur ++ p) ∷ []
    last = unfold strsep in refl
