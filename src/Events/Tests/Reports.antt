-- ===== src/Events/Tests/Reports.antt =====
-- Concrete event configurations for GetEventProperties.
use thingino_onvif.Base.{[], ◌∷◌, some, ◌≡◌, arith, codes, take}
use thingino_onvif.Events.Properties.Sources.{concat, build_event_sources-take}
use thingino_onvif.Events.Properties.{
  source_pieces, description_pieces, build_event_sources, build_event_source_descriptions,
}
use thingino_onvif.Events.State.{EventConf, ServiceContext}
use thingino_onvif.Events.Tests.{motion, device}

abbrev deep_event : EventConf
deep_event = record motion { topic = some (codes "tns1:A/B/C/D") }

abbrev deep_device : ServiceContext
deep_device = record device { events = deep_event ∷ [] }

build_event_sources-take_example :
    (build_event_sources 40 motion.sources ≡ take 39 (concat (source_pieces motion.sources)))
    × (build_event_source_descriptions 40 motion.sources
        ≡ take 39 (concat (description_pieces motion.sources)))
build_event_sources-take_example = build_event_sources-take 40 motion.sources (omega arith)
