-- ===== src/Ptz/Tours/Reload.antt =====
-- What `tours_ensure_loaded` of src/ptz_service.c reads from the file that `tours_save` wrote.
use thingino_onvif.Ptz.Tours.Pieces.{
  behind_token-Differ, Differ, IsStorable, behind_token, file_start, find_piece-Token, gap, pieces,
  pieces-IsPlain, shown_status_given, tours_save-joined,
}
use thingino_onvif.Base.{
  ℕ, zero, suc, ◌^◌, ◌<◌, ◌≤◌, false, ◌||◌, ltb, List, [], ◌∷◌, ◌++◌, ◌≡◌, ◌≢◌, refl, ap, ◌∙◌,
  arith, none, some, ◌==◌, Bytes, codes, equal, All, length, take, length-append,
}
use thingino_onvif.Ptz.Tours.Segments.{
  joined, IsPlain, find_piece, marked, strstr-joined, value_behind-joined, find_piece-append,
  find_piece_here, find_piece_nil,
}
use thingino_onvif.Text.Tokens.{Lacks}
use thingino_onvif.Ptz.Tours.Store.{
  quoted, opening, closing, Keys, lower_keys, title_keys, line_end, save_lines, tours_save, strstr,
  value_behind, optional_value, add_tour, load_pass, tours_ensure_loaded,
}
use thingino_onvif.Ptz.Numbers.{take-id}
use thingino_onvif.Ptz.Tours.{Tour, shown_status}

-- A value that is found is read, cut to its size.
optional_value_found :
    (size : ℕ) (key v v' : Bytes) (us vs : List Bytes)
    → IsPlain key
    → Lacks b':' key
    → IsPlain v
    → All IsPlain us
    → find_piece key us ≡ some (key ∷ (codes ": " ∷ (v ∷ (v' ∷ vs))))
    → optional_value size key (joined [] us) ≡ take size v
unfolding optional_value
optional_value_found size key v v' us vs plain colon hv hus found =
    let there : strstr (quoted key) (joined [] us)
        ≡ some (b'"' ∷ joined key (codes ": " ∷ (v ∷ (v' ∷ vs)))) =
      strstr-joined key [] us plain tt hus ∙ ap marked found in
    let value = value_behind-joined key v v' vs colon hv in
    rw (there, optional_value) (rw (value, optional_value) refl)

add_tour_given :
    (keys : Keys) (p token : Bytes) (more : List Tour)
    → token ≢ []
    → add_tour keys p token more
      ≡ record {
        token = token;
        name = optional_value 63 keys.name_key p;
        status = shown_status (optional_value 15 keys.status_key p);
      }
        ∷ more
add_tour_given keys p [] more h = absurd (h refl)
add_tour_given keys p (c ∷ token) more h = refl

-- The tour at its key.
module _ (t : Tour) (ts : List Tour) (v : IsStorable t) (h : All IsStorable ts) where
  before_name : Differ (codes "name") (codes "token" ∷ (codes ": " ∷ (t.token ∷ (codes ", " ∷ []))))
  unfolding equal
  before_name = ground arith

  name_found : optional_value 63 (codes "name") (joined [] (pieces (t ∷ ts))) ≡ t.name
  name_found =
      optional_value_found 63 (codes "name") t.name (codes ", ") (pieces (t ∷ ts)) _ (ground arith)
        (ground arith) v.name_other.0 (pieces-IsPlain (t ∷ ts) (v, h))
        (find_piece-append (codes "name")
            (codes "token" ∷ (codes ": " ∷ (t.token ∷ (codes ", " ∷ [])))) _ before_name
          ∙ find_piece_here (codes "name") (codes ": ") _)
      ∙ take-id 63 t.name v.name_size

  before_status : Differ (codes "status") (
      codes "token"
      ∷ (codes ": "
          ∷ (t.token
              ∷ (codes ", " ∷ (codes "name" ∷ (codes ": " ∷ (t.name ∷ (codes ", " ∷ []))))))))
  unfolding equal
  before_status = ground arith

  status_shown : shown_status t.status ≡ t.status
  status_shown = shown_status_given t.status v.status_given

  status_found : optional_value 15 (codes "status") (joined [] (pieces (t ∷ ts))) ≡ t.status
  status_found =
      optional_value_found 15 (codes "status") (shown_status t.status) (line_end ts ++ gap ts)
        (pieces (t ∷ ts)) (pieces ts) (ground arith) (ground arith)
        (rw status_shown v.status_other.0) (pieces-IsPlain (t ∷ ts) (v, h))
        (find_piece-append (codes "status")
            (codes "token"
              ∷ (codes ": "
                  ∷ (t.token
                      ∷ (codes ", "
                          ∷ (codes "name" ∷ (codes ": " ∷ (t.name ∷ (codes ", " ∷ []))))))))
            _ before_status
          ∙ find_piece_here (codes "status") (codes ": ") _)
      ∙ (ap (take 15) status_shown ∙ take-id 15 t.status v.status_size)

  add_tour-pieces :
      (more : List Tour)
      → add_tour lower_keys (joined [] (pieces (t ∷ ts))) (take 63 t.token) more ≡ t ∷ more
  add_tour-pieces more = rw (take-id 63 t.token v.token_size) (
      add_tour_given lower_keys (joined [] (pieces (t ∷ ts))) t.token more v.token_given
      ∙ rw (name_found, status_found, shown_status_given t.status v.status_given))

load_pass-pieces :
    (f : ℕ) (s : Bytes) (vs : List Bytes) (ts : List Tour)
    → IsPlain s
    → All IsPlain vs
    → find_piece (codes "token") vs ≡ find_piece (codes "token") (pieces ts)
    → All IsStorable ts
    → length ts < f
    → load_pass lower_keys f (joined s vs) ≡ ts
unfolding load_pass
load_pass-pieces zero s vs ts hs hvs found h enough = absurd (omega arith)
load_pass-pieces (suc f) s vs [] hs hvs found h enough =
    rw
      (
        strstr-joined (codes "token") s vs (ground arith) hs hvs
            ∙ ap marked (found ∙ find_piece_nil _),
        load_pass,
      )
      refl
load_pass-pieces (suc f) s vs (t ∷ ts) hs hvs found (v, h) enough =
    let here : strstr (quoted (codes "token")) (joined s vs) ≡ some (joined [] (pieces (t ∷ ts))) =
      strstr-joined (codes "token") s vs (ground arith) hs hvs
      ∙ ap marked (found ∙ find_piece_here (codes "token") (codes ": ") _) in
    let value : value_behind (joined [] (pieces (t ∷ ts)))
        ≡ some (t.token, joined (codes ", ") (behind_token t ts ++ pieces ts)) =
      value_behind-joined (codes "token") t.token (codes ", ") (behind_token t ts ++ pieces ts)
        (ground arith) v.token_other.0 in
    let rest =
      load_pass-pieces f (codes ", ") (behind_token t ts ++ pieces ts) ts (ground arith)
        (ground (arith, pieces-IsPlain (t ∷ ts) (v, h)))
        (find_piece-append (codes "token") (behind_token t ts) (pieces ts)
          (behind_token-Differ t ts v))
        h (omega arith) in
    rw (here, load_pass) (rw (value, load_pass) (rw rest (add_tour-pieces t ts v h ts)))

save_lines-length : (ts : List Tour) → length ts ≤ length (save_lines ts)
unfolding save_lines
save_lines-length [] = omega arith
save_lines-length (t ∷ ts) = grind (arith, length-append, save_lines-length ts)

tours_save-length : (ts : List Tour) → length ts < length (tours_save ts)
unfolding tours_save
tours_save-length ts = omega (
  arith,
  length-append opening (save_lines ts ++ closing),
  length-append (save_lines ts) closing,
  save_lines-length ts,
)

file_start-IsPlain : (ts : List Tour) → All IsStorable ts → All IsPlain (file_start ts ++ pieces ts)
file_start-IsPlain [] h = ground arith
file_start-IsPlain (t ∷ ts) h = ground (arith, pieces-IsPlain (t ∷ ts) h)

file_start-Differ :
    (ts : List Tour)
    → Differ (codes "token") (file_start ts) × Differ (codes "Token") (file_start ts)
unfolding equal
file_start-Differ [] = ground arith
file_start-Differ (t ∷ ts) = ground arith

load_pass-title_keys :
    (f : ℕ) (ts : List Tour) → All IsStorable ts → load_pass title_keys (suc f) (tours_save ts) ≡ []
unfolding load_pass
load_pass-title_keys f ts h =
    let gone : strstr (quoted (codes "Token")) (tours_save ts) ≡ none =
      ap (strstr (quoted (codes "Token"))) (tours_save-joined ts)
      ∙ (strstr-joined (codes "Token") (codes "{\n  ") (file_start ts ++ pieces ts) (ground arith)
            (ground arith) (file_start-IsPlain ts h)
          ∙ ap marked (
              find_piece-append (codes "Token") (file_start ts) (pieces ts) (file_start-Differ ts).1
              ∙ find_piece-Token ts h)) in
    rw (gone, load_pass) refl

load_pass-lower_keys :
    (f : ℕ) (ts : List Tour)
    → All IsStorable ts
    → length ts < f
    → load_pass lower_keys f (tours_save ts) ≡ ts
load_pass-lower_keys f ts h enough =
    ap (load_pass lower_keys f) (tours_save-joined ts)
    ∙ load_pass-pieces f (codes "{\n  ") (file_start ts ++ pieces ts) ts (ground arith)
        (file_start-IsPlain ts h)
        (find_piece-append (codes "token") (file_start ts) (pieces ts) (file_start-Differ ts).0) h
        enough

-- The file that the tours are saved to is read back as those tours, if their texts fit the arrays, no
-- token or state is empty, no text has a quotation mark or is one of the words Token, token, name and
-- status, and the file has at most 2^20 bytes.
pub tours_ensure_loaded-tours_save :
    (ts : List Tour)
    → All IsStorable ts
    → length (tours_save ts) ≤ 2 ^ 20
    → tours_ensure_loaded (some (tours_save ts)) ≡ ts
unfolding tours_ensure_loaded
tours_ensure_loaded-tours_save ts h size =
    let filled = tours_save-length ts in
    let full : (length (tours_save ts) == 0 || ltb (2 ^ 20) (length (tours_save ts))) ≡ false =
      ground arith in
    rw full (
      rw (load_pass-title_keys (length (tours_save ts)) ts h)
        (load_pass-lower_keys (suc (length (tours_save ts))) ts h (omega arith)))
