-- ===== src/Events/Properties/Levels.antt =====
-- GetEventProperties refuses topics that are too deep.
use thingino_onvif.Base.{
  ℕ, zero, suc, ◌<◌, Bool, false, List, [], ◌∷◌, Option, none, some, ◌≡◌, ◌≢◌, refl, arith, ltb,
  Bytes, length, get_elem?, Option-cases, Bool-cases, inl, inr,
}
use thingino_onvif.Events.Properties.{
  Page, topic_levels, event_pages, has_topic, get_event_properties, tokens_of, and_then, event_page,
  finish,
}
use thingino_onvif.Events.Requests.{Checked, pass, stop}
use thingino_onvif.Events.State.{EventConf, ServiceContext}

and_then-pass :
    (page : Page) (o : Option (Checked (List Page))) (pages : List Page)
    → and_then page o ≡ some (pass pages)
    → (rest : List Page) × (o ≡ some (pass rest))
and_then-pass page none pages h = cc
and_then-pass page (some (stop code fault)) pages h = cc
and_then-pass page (some (pass rest)) pages h = (rest, refl)

finish-pass :
    (b : Bool) (ptz_enable : ℕ) (o : Option (Checked (List Page))) (pages : List Page)
    → finish b ptz_enable o ≡ some (pass pages)
    → (rest : List Page) × (o ≡ some (pass rest))
finish-pass b ptz_enable none pages h = cc
finish-pass b ptz_enable (some (stop code fault)) pages h = cc
finish-pass b ptz_enable (some (pass rest)) pages h = (rest, refl)

-- An event whose pages are made has a topic of three levels at most, and so have the others.
event_pages_first :
    (ev : EventConf) (evs : List EventConf) (pages : List Page) (topic : Bytes)
    → ev.topic ≡ some topic
    → event_pages (ev ∷ evs) ≡ some (pass pages)
    → (ltb 3 (length (tokens_of topic)) ≡ false)
      × ((rest : List Page) × (event_pages evs ≡ some (pass rest)))
unfolding event_pages
event_pages_first ev evs pages topic t h = elim (Option-cases (topic_levels 3 (tokens_of topic))) [
  | inl undefined ↦ absurd (cc (rw (t, undefined) at h))
  | inr (levels, l) ↦ elim (Bool-cases (ltb 3 (length (tokens_of topic)))) [
    | inl deep ↦ absurd (cc (rw (t, l, deep) at h))
    | inr flat ↦ (
      flat,
      and_then-pass (event_page ev topic levels) (event_pages evs) pages (rw (t, l, flat) at h),
    )
  ]
]

event_pages_skip :
    (ev : EventConf) (evs : List EventConf) (pages : List Page)
    → ev.topic ≡ none
    → event_pages (ev ∷ evs) ≡ some (pass pages)
    → event_pages evs ≡ some (pass pages)
unfolding event_pages
event_pages_skip ev evs pages t h = rw t at h

event_pages_flat :
    (evs : List EventConf) (pages : List Page) (k : ℕ) (ev : EventConf) (topic : Bytes)
    → event_pages evs ≡ some (pass pages)
    → get_elem? evs k ≡ some ev
    → ev.topic ≡ some topic
    → ltb 3 (length (tokens_of topic)) ≡ false
event_pages_flat [] pages k ev topic h g t = cc
event_pages_flat (x ∷ evs) pages zero ev topic h g t =
    let same : x ≡ ev = ground arith in (event_pages_first x evs pages topic (rw same t) h).0
event_pages_flat (x ∷ evs) pages (suc k) ev topic h g t = elim (Option-cases x.topic) [
  | inl no_topic ↦
      event_pages_flat evs pages k ev topic (event_pages_skip x evs pages no_topic h) g t
  | inr (x_topic, has) ↦
      let (_, (rest, r)) = event_pages_first x evs pages x_topic has h in
      event_pages_flat evs rest k ev topic r g t
]

-- If the topic of an event has more than three levels, GetEventProperties serves nothing.
pub get_event_properties_deep :
    (ctx : ServiceContext) (ptz_enable k : ℕ) (ev : EventConf) (topic : Bytes) (pages : List Page)
    → get_elem? ctx.events k ≡ some ev
    → ev.topic ≡ some topic
    → 3 < length (tokens_of topic)
    → get_event_properties ctx ptz_enable ≢ some (pass pages)
unfolding get_event_properties
get_event_properties_deep ctx ptz_enable k ev topic pages g t deep h =
    let (rest, r) =
      finish-pass (has_topic ctx.events) ptz_enable (event_pages ctx.events) pages h in
    let flat = event_pages_flat ctx.events rest k ev topic r g t in absurd (ground arith)
