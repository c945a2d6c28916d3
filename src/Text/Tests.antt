-- ===== src/Text/Tests.antt =====
-- Concrete texts for the helpers of src/utils.c.
use thingino_onvif.Base.Int.{pos}
use thingino_onvif.Base.{
  Bytes, length, ◌⊎◌, ◌<◌, ◌≤◌, ◌+◌, ◌*◌, true, false, [], ◌∷◌, ◌++◌, some, ◌≡◌, ◌↔◌, refl, arith,
  codes, equal,
}
use thingino_onvif.Text.Decimal.RoundTrip.{scan_int-print}
use thingino_onvif.Text.Decimal.{is_digit, print, scan_int}
use thingino_onvif.Text.Html.Escaped.{escaped, html_escape-escaped}
use thingino_onvif.Text.Html.{html_escape}
use thingino_onvif.Text.Interval.Value.{duration, interval2sec-duration}
use thingino_onvif.Text.Interval.{interval2sec}
use thingino_onvif.Text.Topic.Filters.{
  IsFilter, expression_text, parse_topic_expression-expression_text, OneLetsThrough,
  is_topic_in_expression-expression_text,
}
use thingino_onvif.Text.Topic.{TopicExpression, parse_topic_expression, is_topic_in_expression}

scan_int-print_example : scan_int (print 42 ++ codes "M") ≡ some (pos 42, codes "M")
unfolding is_digit
scan_int-print_example = scan_int-print 42 (codes "M") refl

interval2sec-duration_example : interval2sec (duration 1 30 5) ≡ pos (1 * 3600 + 30 * 60 + 5)
interval2sec-duration_example = interval2sec-duration 1 30 5 (omega arith)

abbrev relay_filter : TopicExpression
relay_filter = record { topic = codes "tns1:Device"; match_sub_tree = true }

abbrev motion_filter : TopicExpression
motion_filter = record { topic = codes "tns1:VideoSource/MotionAlarm"; match_sub_tree = false }

relay_filter-IsFilter : IsFilter relay_filter
relay_filter-IsFilter = record {
  no_bar = ground arith;
  long = omega arith;
  no_marker = λ e. absurd (cc);
}

motion_filter-IsFilter : IsFilter motion_filter
unfolding equal
motion_filter-IsFilter = record { no_bar = ground arith; long = omega arith; no_marker = λ e. refl }

parse_topic_expression-expression_text_example :
    parse_topic_expression (expression_text relay_filter (motion_filter ∷ []))
    ≡ some (relay_filter ∷ motion_filter ∷ [])
parse_topic_expression-expression_text_example =
    parse_topic_expression-expression_text relay_filter (motion_filter ∷ []) relay_filter-IsFilter
      (motion_filter-IsFilter, tt) (omega arith)

is_topic_in_expression-expression_text_example :
    (is_topic_in_expression
        (some (expression_text relay_filter (motion_filter ∷ [])))
        (some (codes "tns1:Device/Trigger/Relay"))
      ≡ true)
    ↔ OneLetsThrough (relay_filter ∷ motion_filter ∷ []) (codes "tns1:Device/Trigger/Relay")
is_topic_in_expression-expression_text_example =
    is_topic_in_expression-expression_text relay_filter (motion_filter ∷ [])
      (codes "tns1:Device/Trigger/Relay") relay_filter-IsFilter (motion_filter-IsFilter, tt)
      (omega arith)

html_escape-escaped_example :
    (rest : Bytes) × (codes "a&amp;b" ++ escaped rest ≡ escaped (codes "a&b"))
    × (length (codes "a&amp;b") < 40)
    × ((rest ≡ []) ⊎ (40 ≤ length (codes "a&amp;b") + 10))
unfolding html_escape
html_escape-escaped_example = html_escape-escaped 40 (codes "a&b") (codes "a&amp;b") refl
