-- ===== src/Output/Fill.antt =====
-- What `cat` of src/utils.c puts in the place of a parameter.
use thingino_onvif.Base.{
  ◌+◌, ◌-◌, ◌<◌, true, false, [], ◌∷◌, ◌++◌, some, ◌≡◌, ◌≢◌, refl, ◌∙◌, arith, Bytes, length,
  append_assoc, append-nil, ltb, ◌==◌,
}
use thingino_onvif.Output.{max_cat_len, split_at, or_line, substitute}
use thingino_onvif.Text.Prefix.{starts_with-append, drop-append}
use thingino_onvif.Text.Tokens.{Lacks}
use thingino_onvif.Text.Topic.{starts_with}

split_at_here :
    (key cur suffix : Bytes)
    → split_at (b'%' ∷ key) cur (b'%' ∷ (key ++ suffix)) ≡ some (cur, suffix)
unfolding split_at starts_with
split_at_here key cur suffix = rw (starts_with-append key suffix, drop-append key suffix)

split_at-append :
    (key cur prefix suffix : Bytes)
    → Lacks b'%' prefix
    → split_at (b'%' ∷ key) cur (prefix ++ b'%' ∷ (key ++ suffix)) ≡ some (cur ++ prefix, suffix)
unfolding split_at starts_with
split_at-append key cur [] suffix h = rw append-nil (split_at_here key cur suffix)
split_at-append key cur (c ∷ prefix) suffix (hc, h) =
    let other : (b'%' == c) ≡ false = ground arith in
    rw other (split_at-append key (cur ++ c ∷ []) prefix suffix h ∙ rw append_assoc)

or_line_given : (line s : Bytes) → s ≢ [] → or_line line s ≡ s
or_line_given line [] h = absurd (h refl)
or_line_given line (c ∷ s) h = refl

-- The first parameter of a line that begins with a percent sign is replaced by its value, and nothing
-- else in the line changes, if a line of at most 2046 bytes comes out and not an empty one.
pub substitute-append :
    (key value prefix suffix : Bytes)
    → Lacks b'%' prefix
    → length prefix + length value + length suffix < max_cat_len - 1
    → prefix ++ (value ++ suffix) ≢ []
    → substitute (b'%' ∷ key) value (prefix ++ b'%' ∷ (key ++ suffix)) ≡ prefix ++ (value ++ suffix)
unfolding substitute
substitute-append key value prefix suffix h fits given =
    let found = split_at-append key [] prefix suffix h in
    let room : ltb (length prefix + length value + length suffix) (max_cat_len - 1) ≡ true =
      ground arith in
    rw (found, substitute) (rw room (or_line_given _ (prefix ++ (value ++ suffix)) given))
