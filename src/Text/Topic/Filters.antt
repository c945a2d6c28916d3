-- ===== src/Text/Topic/Filters.antt =====
-- A topic expression that was put together from filters is read as those filters.
use thingino_onvif.Base.{
  ℕ, zero, suc, ◌↔◌, ◌⊎◌, inl, inr, sym, Bool-cases, equal_iff, equal_refl, get_elem?, some-eq_inj,
  ◌-◌, ◌<◌, Bool, true, false, List, [], ◌∷◌, ◌++◌, some, ◌≡◌, refl, ◌∙◌, ap, arith, if◌then◌else◌,
  Bytes, codes, equal, length, take, drop, length-append, All, All-append,
}
use thingino_onvif.Text.Prefix.{starts_with-append}
use thingino_onvif.Text.Tokens.{strtok, strtok_piece, strtok_whole, Lacks}
use thingino_onvif.Text.Topic.{
  TopicExpression, topic_of_token, parse_tokens, parse_topic_expression, starts_with, topic_matches,
  any_matches, is_topic_in_expression,
}

abbrev pub marker : Bytes
marker = codes "//."

-- The text of one filter.
abbrev pub filter_text : TopicExpression → Bytes
filter_text e = if e.match_sub_tree then e.topic ++ marker else e.topic

-- The filters joined by bars.
abbrev pub expression_text : TopicExpression → List TopicExpression → Bytes
expression_text e [] = filter_text e
expression_text e (e' ∷ es) = filter_text e ++ b'|' ∷ expression_text e' es

-- A filter that the syntax can express: no bar, four bytes at least, and no marker of its own.
pub record IsFilter (e : TopicExpression) : Type 0 where
  pub no_bar : Lacks b'|' e.topic
  pub long : 3 < length (filter_text e)
  pub no_marker :
      e.match_sub_tree ≡ false → equal (drop (length e.topic - 3) e.topic) marker ≡ false

drop_prefix : (t m : Bytes) → drop (length t) (t ++ m) ≡ m
drop_prefix [] m = refl
drop_prefix (c ∷ t) m = drop_prefix t m

take_prefix : (t m : Bytes) → take (length t) (t ++ m) ≡ t
take_prefix [] m = refl
take_prefix (c ∷ t) m = ap (◌∷◌ c) (take_prefix t m)

marked : (t : Bytes) → topic_of_token (t ++ marker) ≡ record { topic = t; match_sub_tree = true }
unfolding topic_of_token
marked t =
    let cut : length (t ++ marker) - 3 ≡ length t = omega (arith, length-append t marker) in
    rw (cut, drop_prefix t marker, take_prefix t marker)

topic_of_token_fields :
    (t : Bytes) (b : Bool)
    → (b ≡ false → equal (drop (length t - 3) t) marker ≡ false)
    → topic_of_token (if b then t ++ marker else t) ≡ record { topic = t; match_sub_tree = b }
topic_of_token_fields t true h = marked t
topic_of_token_fields t false h = unfold topic_of_token in rw (h refl)

topic_of_token-filter_text : (e : TopicExpression) → IsFilter e → topic_of_token (filter_text e) ≡ e
topic_of_token-filter_text e h = topic_of_token_fields e.topic e.match_sub_tree h.no_marker

filter_text-Lacks :
    (t : Bytes) (b : Bool) → Lacks b'|' t → Lacks b'|' (if b then t ++ marker else t)
filter_text-Lacks t true h = All-append _ t marker h (refl, (refl, (refl, tt)))
filter_text-Lacks t false h = h

pieces_of : TopicExpression → List TopicExpression → List Bytes
pieces_of e [] = filter_text e ∷ []
pieces_of e (e' ∷ es) = filter_text e ∷ pieces_of e' es

strtok-expression_text :
    (e : TopicExpression) (es : List TopicExpression)
    → IsFilter e
    → All IsFilter es
    → strtok b'|' (expression_text e es) [] ≡ pieces_of e es
unfolding pieces_of
strtok-expression_text e [] h hs =
    strtok_whole b'|' (filter_text e) (λ z. absurd (omega (arith, h.long, ap length z)))
      (filter_text-Lacks e.topic e.match_sub_tree h.no_bar)
strtok-expression_text e (e' ∷ es) h (h', hs) =
    strtok_piece b'|' (filter_text e) (expression_text e' es)
      (λ z. absurd (omega (arith, h.long, ap length z)))
      (filter_text-Lacks e.topic e.match_sub_tree h.no_bar)
    ∙ ap (◌∷◌ (filter_text e)) (strtok-expression_text e' es h' hs)

parse_one :
    (e : TopicExpression) (pieces : List Bytes) (es : List TopicExpression)
    → IsFilter e
    → parse_tokens pieces ≡ some es
    → parse_tokens (filter_text e ∷ pieces) ≡ some (e ∷ es)
unfolding parse_tokens
parse_one e pieces es h p = rw (p, topic_of_token-filter_text e h) (ground (arith, h.long))

parse_tokens-pieces_of :
    (e : TopicExpression) (es : List TopicExpression)
    → IsFilter e
    → All IsFilter es
    → parse_tokens (pieces_of e es) ≡ some (e ∷ es)
unfolding pieces_of
parse_tokens-pieces_of e [] h hs = parse_one e [] [] h (unfold parse_tokens in refl)
parse_tokens-pieces_of e (e' ∷ es) h (h', hs) =
    parse_one e (pieces_of e' es) (e' ∷ es) h (parse_tokens-pieces_of e' es h' hs)

length-expression_text :
    (e : TopicExpression) (es : List TopicExpression)
    → IsFilter e
    → 3 < length (expression_text e es)
length-expression_text e [] h = h.long
length-expression_text e (e' ∷ es) h =
    omega (arith, h.long, length-append (filter_text e) (b'|' ∷ expression_text e' es))

-- An expression that joins filters of the syntax, and fits the buffer, is parsed to those filters.
pub parse_topic_expression-expression_text :
    (e : TopicExpression) (es : List TopicExpression)
    → IsFilter e
    → All IsFilter es
    → length (expression_text e es) < 1024
    → parse_topic_expression (expression_text e es) ≡ some (e ∷ es)
unfolding parse_topic_expression
parse_topic_expression-expression_text e es h hs fits =
    rw (strtok-expression_text e es h hs, parse_tokens-pieces_of e es h hs)
      (ground (arith, length-expression_text e es h))

in_expression_long :
    (s topic : Bytes) (topics : List TopicExpression)
    → 3 < length s
    → parse_topic_expression s ≡ some topics
    → is_topic_in_expression (some s) (some topic) ≡ any_matches topics topic
unfolding is_topic_in_expression
in_expression_long [] topic topics h p = elim h [ ]
in_expression_long (c ∷ s) topic topics h p = rw p

-- What a filter lets through: its topic, and with the marker all topics that begin with it.
abbrev pub LetsThrough : TopicExpression → Bytes → Type 0
LetsThrough e topic =
    ((e.match_sub_tree ≡ true) × ((rest : Bytes) × (topic ≡ e.topic ++ rest)))
    ⊎ ((e.match_sub_tree ≡ false) × (topic ≡ e.topic))

starts_with-rest : (s t : Bytes) → starts_with s t ≡ true → (rest : Bytes) × (t ≡ s ++ rest)
unfolding starts_with
starts_with-rest [] t h = (t, refl)
starts_with-rest (x ∷ s) [] h = cc
starts_with-rest (x ∷ s) (y ∷ t) h =
    let (rest, e) = starts_with-rest s t (ground arith) in
    let same : x ≡ y = ground arith in (rest, cc)

topic_matches_iff :
    (e : TopicExpression) (topic : Bytes) → (topic_matches e topic ≡ true) ↔ LetsThrough e topic
unfolding topic_matches
topic_matches_iff e topic = elim (Bool-cases e.match_sub_tree) [
  | inl sub_tree ↦ (
    λ h. inl (sub_tree, starts_with-rest e.topic topic (rw sub_tree at h)),
    λ through. elim through [
      | inl (sub_tree', (rest, is)) ↦ rw (sub_tree, is) (starts_with-append e.topic rest)
      | inr (plain, is) ↦ cc
    ],
  )
  | inr plain ↦ (
    λ h. inr (plain, sym ((equal_iff e.topic topic).0 (rw plain at h))),
    λ through. elim through [
      | inl (sub_tree, part) ↦ cc
      | inr (plain', is) ↦ rw (plain, is) (equal_refl e.topic)
    ],
  )
]

-- One of the filters lets the topic through.
abbrev pub OneLetsThrough : List TopicExpression → Bytes → Type 0
OneLetsThrough es topic =
    (i : ℕ) × (e : TopicExpression) × (get_elem? es i ≡ some e) × LetsThrough e topic

any_matches_iff :
    (es : List TopicExpression) (topic : Bytes)
    → (any_matches es topic ≡ true) ↔ OneLetsThrough es topic
unfolding any_matches
any_matches_iff es topic = (forward es, λ (i, e, here, through). backward es i e here through)
  where
    forward : (es : List TopicExpression) → any_matches es topic ≡ true → OneLetsThrough es topic
    forward [] h = cc
    forward (e ∷ es) h = elim (Bool-cases (topic_matches e topic)) [
      | inl match ↦ (0, e, refl, (topic_matches_iff e topic).0 match)
      | inr other ↦
          let (i, e', here, through) = forward es (rw other at h) in (suc i, e', here, through)
    ]

    backward :
        (es : List TopicExpression) (i : ℕ) (e : TopicExpression)
        → get_elem? es i ≡ some e
        → LetsThrough e topic
        → any_matches es topic ≡ true
    backward [] i e here through = cc
    backward (e' ∷ es) zero e here through =
        let match = (topic_matches_iff e topic).1 through in
        let same : e' ≡ e = some-eq_inj here in ground (arith, match)
    backward (e' ∷ es) (suc i) e here through = ground (arith, backward es i e here through)

-- A topic is in an expression that joins filters of the syntax, and fits the buffer, exactly when one
-- of the filters lets it through: it is the filter's topic, or begins with it where the filter has the
-- marker.
pub is_topic_in_expression-expression_text :
    (e : TopicExpression) (es : List TopicExpression) (topic : Bytes)
    → IsFilter e
    → All IsFilter es
    → length (expression_text e es) < 1024
    → (is_topic_in_expression (some (expression_text e es)) (some topic) ≡ true)
      ↔ OneLetsThrough (e ∷ es) topic
is_topic_in_expression-expression_text e es topic h hs fits =
    rw
      (in_expression_long (expression_text e es) topic (e ∷ es) (length-expression_text e es h)
        (parse_topic_expression-expression_text e es h hs fits))
      (any_matches_iff (e ∷ es) topic)
