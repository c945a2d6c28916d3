-- ===== src/Ptz/Tours/Pieces.antt =====
-- The pieces of the file that `tours_save` of src/ptz_service.c writes.
use thingino_onvif.Base.{
  ◌≤◌, false, List, [], ◌∷◌, ◌++◌, ◌≡◌, ◌≢◌, refl, sym, ap, ◌∙◌, arith, none, Bytes, codes, equal,
  All, append_assoc, length,
}
use thingino_onvif.Ptz.Tours.Segments.{joined, IsPlain, find_piece, find_piece-append}
use thingino_onvif.Ptz.Tours.Store.{opening, closing, line_end, save_lines, tours_save}
use thingino_onvif.Ptz.Tours.{Tour, shown_status}

abbrev pub gap : List Tour → Bytes
gap [] = closing
gap (t ∷ ts) = codes "    { "

abbrev pub pieces : List Tour → List Bytes
pieces [] = []
pieces (t ∷ ts) =
    codes "token"
    ∷ (codes ": "
        ∷ (t.token
            ∷ (codes ", "
                ∷ (codes "name"
                    ∷ (codes ": "
                        ∷ (t.name
                            ∷ (codes ", "
                                ∷ (codes "status"
                                    ∷ (codes ": "
                                        ∷ (shown_status t.status
                                            ∷ ((line_end ts ++ gap ts) ∷ pieces ts)))))))))))

pub joined-append : (s s' : Bytes) (vs : List Bytes) → joined (s ++ s') vs ≡ s ++ joined s' vs
joined-append s s' [] = refl
joined-append s s' (v ∷ vs) = append_assoc s s' (b'"' ∷ joined v vs)

pub save_lines-joined : (ts : List Tour) → save_lines ts ++ closing ≡ joined (gap ts) (pieces ts)
unfolding save_lines
save_lines-joined [] = refl
save_lines-joined (t ∷ ts) = simp (append_assoc, joined-append, save_lines-joined ts)

abbrev pub file_start : List Tour → List Bytes
file_start ts = codes "preset_tours" ∷ ((codes ": [\n" ++ gap ts) ∷ [])

pub tours_save-joined :
    (ts : List Tour) → tours_save ts ≡ joined (codes "{\n  ") (file_start ts ++ pieces ts)
unfolding tours_save
tours_save-joined ts =
    ap (◌++◌ opening) (save_lines-joined ts)
    ∙ ap (◌++◌ (codes "{\n  \"preset_tours\""))
        (sym (joined-append (codes ": [\n") (gap ts) (pieces ts)))

-- A value that can be told from the keys around it.
abbrev pub IsOther : Bytes → Type 0
IsOther v =
    IsPlain v
    × All (λ w. equal v w ≡ false)
        (codes "Token" ∷ (codes "token" ∷ (codes "name" ∷ (codes "status" ∷ []))))

-- What the reader can read back: the texts fit their arrays and are none of its words, and only the
-- name may be empty.
pub record IsStorable (t : Tour) : Type 0 where
  pub token_other : IsOther t.token
  pub name_other : IsOther t.name
  pub status_other : IsOther t.status
  pub token_given : t.token ≢ []
  pub status_given : t.status ≢ []
  pub token_size : length t.token ≤ 63
  pub name_size : length t.name ≤ 63
  pub status_size : length t.status ≤ 15

pub shown_status_given : (s : Bytes) → s ≢ [] → shown_status s ≡ s
shown_status_given [] h = absurd (h refl)
shown_status_given (c ∷ s) h = refl

pub gap-IsPlain : (ts : List Tour) → IsPlain (gap ts)
gap-IsPlain [] = ground arith
gap-IsPlain (t ∷ ts) = ground arith

pub end-IsPlain : (ts : List Tour) → IsPlain (line_end ts ++ gap ts)
end-IsPlain [] = ground arith
end-IsPlain (t ∷ ts) = ground arith

pub pieces-IsPlain : (ts : List Tour) → All IsStorable ts → All IsPlain (pieces ts)
pieces-IsPlain [] h = tt
pieces-IsPlain (t ∷ ts) (v, h) =
    ground (arith, shown_status_given t.status v.status_given, end-IsPlain ts, pieces-IsPlain ts h)

abbrev pub behind_token : Tour → List Tour → List Bytes
behind_token t ts =
    codes "name"
    ∷ (codes ": "
        ∷ (t.name
            ∷ (codes ", "
                ∷ (codes "status"
                    ∷ (codes ": " ∷ (shown_status t.status ∷ ((line_end ts ++ gap ts) ∷ [])))))))

abbrev pub Differ : Bytes → List Bytes → Type 0
Differ w = All (λ v. equal v w ≡ false)

pub end_differs :
    (ts : List Tour)
    → All (λ w. equal (line_end ts ++ gap ts) w ≡ false) (codes "Token" ∷ (codes "token" ∷ []))
unfolding equal
end_differs [] = ground arith
end_differs (t ∷ ts) = ground arith

module _ (t : Tour) (ts : List Tour) (v : IsStorable t) where
  pub behind_token-Differ : Differ (codes "token") (behind_token t ts)
  unfolding equal
  behind_token-Differ = ground (arith, end_differs ts, shown_status_given t.status v.status_given)

  pieces-Differ :
      Differ
        (codes "Token")
        (codes "token" ∷ (codes ": " ∷ (t.token ∷ (codes ", " ∷ behind_token t ts))))
  unfolding equal
  pieces-Differ = ground (arith, end_differs ts, shown_status_given t.status v.status_given)

-- The words of the first pass are not in the file.
pub find_piece-Token :
    (ts : List Tour) → All IsStorable ts → find_piece (codes "Token") (pieces ts) ≡ none
unfolding find_piece
find_piece-Token [] h = refl
find_piece-Token (t ∷ ts) (v, h) =
    find_piece-append (codes "Token")
      (codes "token" ∷ (codes ": " ∷ (t.token ∷ (codes ", " ∷ behind_token t ts)))) (pieces ts)
      (pieces-Differ t ts v)
    ∙ find_piece-Token ts h
