-- ===== src/Text/Topic.antt =====
-- `parse_topic_expression` and `is_topic_in_expression` of src/utils.c. The struct's array is a
-- list; allocation does not fail.
pub mod Filters
use thingino_onvif.Base.{
  ℕ, ◌-◌, Bool, true, false, ◌&&◌, ◌||◌, List, [], ◌∷◌, ◌++◌, Option, none, some, ◌==◌, ltb, leb,
  if◌then◌else◌, Bytes, codes, equal, length, take, drop, ◌≡◌, refl,
}
use thingino_onvif.Text.Tokens.{strtok}

abbrev pub max_len : ℕ
max_len = 1024

pub record TopicExpression : Type 0 where
  pub topic : Bytes
  pub match_sub_tree : Bool

-- The marker `//.` at the end of a token asks for the topic and all below it.
unfoldable pub topic_of_token : Bytes → TopicExpression
unfolding equal
topic_of_token token =
    let cut = length token - 3 in
    if equal (drop cut token) (codes "//.")
    then record { topic = take cut token; match_sub_tree = true }
    else record { topic = token; match_sub_tree = false }

unfoldable pub parse_tokens : List Bytes → Option (List TopicExpression)
unfolding topic_of_token
parse_tokens [] = some []
parse_tokens (token ∷ rest) = elim (parse_tokens rest) [
  | none ↦ none
  | some topics ↦ if leb (length token) 3 then none else some (topic_of_token token ∷ topics)
]

unfoldable pub parse_topic_expression : Bytes → Option (List TopicExpression)
unfolding parse_tokens strtok
parse_topic_expression input =
    if ltb (max_len - 1) (length input)
    then none
    else if leb (length input) 3
    then none
    else parse_tokens (strtok b'|' input [])

-- `strncmp(a, b, strlen(a)) == 0`
unfoldable pub starts_with : Bytes → Bytes → Bool
starts_with [] t = true
starts_with (x ∷ s) [] = false
starts_with (x ∷ s) (y ∷ t) = x == y && starts_with s t

unfoldable pub topic_matches : TopicExpression → Bytes → Bool
unfolding starts_with equal
topic_matches e topic = if e.match_sub_tree then starts_with e.topic topic else equal e.topic topic

unfoldable pub any_matches : List TopicExpression → Bytes → Bool
unfolding topic_matches
any_matches [] topic = false
any_matches (e ∷ es) topic = topic_matches e topic || any_matches es topic

abbrev in_topics : Option (List TopicExpression) → Bytes → Bool
in_topics none topic = false
in_topics (some topics) topic = any_matches topics topic

-- A null pointer is `none`.
unfoldable pub is_topic_in_expression : Option Bytes → Option Bytes → Bool
unfolding parse_topic_expression any_matches
is_topic_in_expression none topic = true
is_topic_in_expression (some []) topic = true
is_topic_in_expression (some (c ∷ s)) none = false
is_topic_in_expression (some (c ∷ s)) (some topic) =
    in_topics (parse_topic_expression (c ∷ s)) topic

motion_filter :
    is_topic_in_expression
      (some (codes "tns1:A/B|tns1:VideoSource//."))
      (some (codes "tns1:VideoSource/MotionAlarm"))
    ≡ true
unfolding is_topic_in_expression
motion_filter = refl
