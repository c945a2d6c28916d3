-- ===== src/Events/Properties.antt =====
-- The two handlers of src/events_service.c that only report: GetServiceCapabilities and
-- GetEventProperties, with build_event_source_descriptions and build_event_sources of src/utils.c.
-- A text from outside has no zero byte.
pub mod Sources
pub mod Levels
use thingino_onvif.Base.{
  ℕ, zero, suc, ◌+◌, ◌-◌, Bool, true, false, ◌&&◌, ◌||◌, not, List, [], ◌∷◌, ◌++◌, Option, none,
  some, ◌==◌, ltb, if◌then◌else◌, Bytes, String, codes, equal, length, take,
}
use thingino_onvif.Events.Pull.{contains, data_name, relay_topic}
use thingino_onvif.Events.Requests.{Checked, pass, stop}
use thingino_onvif.Events.State.{
  EventSource, EventConf, ServiceContext, Parameter, text, Reply, served, send_action_failed_fault,
}
use thingino_onvif.Text.Tokens.{strtok}

abbrev true_or_false : Bool → Bytes
true_or_false true = codes "true"
true_or_false false = codes "false"

-- 1 stands for pull points, 2 for base subscriptions, 3 for both.
unfoldable pub get_service_capabilities : ServiceContext → Reply
get_service_capabilities ctx = served "events_service_files/GetServiceCapabilities.xml" (
    (
      "%EVENTS_BASESUBSCRIPTION%",
      text (true_or_false (ctx.events_enable == 2 || ctx.events_enable == 3)),
    )
    ∷ (
      "%EVENTS_PULLPOINT%",
      text (true_or_false (ctx.events_enable == 1 || ctx.events_enable == 3)),
    )
    ∷ [])

-- The loop that writes pieces into a buffer with `snprintf`, and ends behind one that does not fit:
-- what fits of that piece stays.
unfoldable pub append_pieces : ℕ → Bytes → List Bytes → Bytes
append_pieces size out [] = out
append_pieces size out (piece ∷ pieces) =
    let more = append_pieces size (out ++ piece) pieces in
    if ltb (length piece) (size - length out)
    then more
    else out ++ take (size - length out - 1) piece

abbrev is_empty : Bytes → Bool
is_empty [] = true
is_empty (c ∷ s) = false

unfoldable pub source_pieces : List EventSource → List Bytes
source_pieces [] = []
source_pieces (src ∷ srcs) =
    if is_empty src.name || is_empty src.value
    then source_pieces srcs
    else (codes "<tt:SimpleItem Name=\""
        ++ (src.name ++ (codes "\" Value=\"" ++ (src.value ++ codes "\"/>"))))
      ∷ source_pieces srcs

unfoldable pub build_event_sources : ℕ → List EventSource → Bytes
unfolding append_pieces source_pieces
build_event_sources outlen sources = append_pieces outlen [] (source_pieces sources)

-- A source without a type is a reference token.
unfoldable pub description_pieces : List EventSource → List Bytes
description_pieces [] = []
description_pieces (src ∷ srcs) =
    let type = if is_empty src.type then codes "tt:ReferenceToken" else src.type in
    if is_empty src.name
    then description_pieces srcs
    else (codes "<tt:SimpleItemDescription Name=\""
        ++ (src.name ++ (codes "\" Type=\"" ++ (type ++ codes "\"/>"))))
      ∷ description_pieces srcs

unfoldable pub build_event_source_descriptions : ℕ → List EventSource → Bytes
unfolding append_pieces description_pieces
build_event_source_descriptions outlen sources =
    append_pieces outlen [] (description_pieces sources)

abbrev element_name : Bytes → Bytes
element_name token = if contains (codes ":") token then token else codes "tns1:" ++ token

-- The start tag of a level in its buffer of 256 bytes: `snprintf` cuts, and `strcat` does not.
abbrev pub start_tag : Bytes → Bytes → Bytes
start_tag rest token = take 255 (b'<' ∷ element_name token) ++ rest

abbrev pub end_tag : Bytes → Bytes
end_tag token = take 255 (codes "</" ++ (element_name token ++ codes ">"))

abbrev leaf : Bytes
leaf = codes "  wstop:topic=\"true\">"

abbrev with_level : Bytes × Bytes → Option (List (Bytes × Bytes)) → Option (List (Bytes × Bytes))
with_level level none = none
with_level level (some levels) = if ltb (length level.0) 256 then some (level ∷ levels) else none

-- The tags of the first levels of a topic. `none` is undefined behaviour: a topic without a name, or
-- a tag that is too long for its buffer.
unfoldable pub topic_levels : ℕ → List Bytes → Option (List (Bytes × Bytes))
unfolding contains
topic_levels zero tokens = some []
topic_levels (suc k) [] = none
topic_levels (suc k) (t ∷ []) = with_level (start_tag leaf t, end_tag t) (some [])
topic_levels (suc k) (t ∷ u ∷ ts) =
    with_level (start_tag (codes ">") t, end_tag t) (topic_levels k (u ∷ ts))

abbrev tags_at : ℕ → List (Bytes × Bytes) → Bytes × Bytes
tags_at i [] = ([], [])
tags_at zero (l ∷ ls) = l
tags_at (suc i) (l ∷ ls) = tags_at i ls

-- One template with its parameters.
abbrev pub Page : Type 0
Page = String × List (String × Parameter)

abbrev topic_page : List (Bytes × Bytes) → Bytes → String → String → Page
topic_page levels sources data_name data_type = (
  "events_service_files/GetEventProperties_2.xml",
  ("%TOPIC_L1_START%", text (tags_at 0 levels).0)
      ∷ ("%TOPIC_L2_START%", text (tags_at 1 levels).0)
      ∷ ("%TOPIC_L3_START%", text (tags_at 2 levels).0)
      ∷ ("%SOURCES%", text sources)
      ∷ ("%DATA_NAME%", text (codes data_name))
      ∷ ("%DATA_TYPE%", text (codes data_type))
      ∷ ("%TOPIC_L3_END%", text (tags_at 2 levels).1)
      ∷ ("%TOPIC_L2_END%", text (tags_at 1 levels).1)
      ∷ ("%TOPIC_L1_END%", text (tags_at 0 levels).1)
      ∷ [],
)

abbrev data_type : Bytes → String
data_type topic = if equal relay_topic topic then "tt:RelayLogicalState" else "xsd:boolean"

abbrev event_page : EventConf → Bytes → List (Bytes × Bytes) → Page
event_page ev topic levels =
    topic_page levels (build_event_source_descriptions 512 ev.sources) (data_name topic)
      (data_type topic)

abbrev and_then : Page → Option (Checked (List Page)) → Option (Checked (List Page))
and_then page none = none
and_then page (some (stop code fault)) = some (stop code fault)
and_then page (some (pass pages)) = some (pass (page ∷ pages))

abbrev tokens_of : Bytes → List Bytes
tokens_of topic = strtok b'/' topic []

-- The pages of one event in front of the others'. More than three levels end the handler.
unfoldable pub event_pages : List EventConf → Option (Checked (List Page))
unfolding topic_levels
event_pages [] = some (pass [])
event_pages (ev ∷ evs) =
    let rest = event_pages evs in
    elim ev.topic [
      | none ↦ rest
      | some topic ↦ elim (topic_levels 3 (tokens_of topic)) [
        | none ↦ none
        | some levels ↦
            if ltb 3 (length (tokens_of topic))
            then some (stop 1 (send_action_failed_fault 1))
            else and_then (event_page ev topic levels) rest
      ]
    ]

unfoldable pub has_topic : List EventConf → Bool
has_topic [] = false
has_topic (ev ∷ evs) = elim ev.topic [ none ↦ has_topic evs | some topic ↦ true ]

-- Without any topic a motion alarm is advertised.
abbrev fallback_page : Page
fallback_page =
    topic_page
      ((codes "<tns1:VideoSource>", codes "</tns1:VideoSource>")
        ∷ (codes "<MotionAlarm  wstop:topic=\"true\">", codes "</MotionAlarm>")
        ∷ [])
      (codes "<tt:SimpleItemDescription Name=\"Source\" Type=\"tt:ReferenceToken\"/>") "State"
      "xsd:boolean"

abbrev plain_page : String → Page
plain_page template = (template, [])

abbrev all_pages : Bool → ℕ → List Page → List Page
all_pages any_topic ptz_enable pages =
    plain_page "events_service_files/GetEventProperties_1.xml"
    ∷ (pages
        ++ ((if any_topic then [] else fallback_page ∷ [])
            ++ ((if ptz_enable == 1
                  then plain_page "events_service_files/GetEventProperties_PTZ.xml" ∷ []
                  else [])
                ++ plain_page "events_service_files/GetEventProperties_3.xml" ∷ [])))

abbrev finish : Bool → ℕ → Option (Checked (List Page)) → Option (Checked (List Page))
finish any_topic ptz_enable none = none
finish any_topic ptz_enable (some (stop code fault)) = some (stop code fault)
finish any_topic ptz_enable (some (pass pages)) = some (pass (all_pages any_topic ptz_enable pages))

-- `ptz_enable` is `ptz_node.enable` of the service context.
unfoldable pub get_event_properties : ServiceContext → ℕ → Option (Checked (List Page))
unfolding event_pages has_topic
get_event_properties ctx ptz_enable =
    finish (has_topic ctx.events) ptz_enable (event_pages ctx.events)
