-- ===== src/Api/Ingestion.antt =====
-- `POST /edrs` of src/job_visibility/api.py, with `KafkaEdrIngress` of
-- src/job_visibility/edr_store/ingress.py. A broker is given a topic, a key and a payload, and says
-- whether it raises.
use job_scheduling_simulatio.Prelude.{
  String, Bool, Option, none, some, if◌then◌else◌, Result, ok, raised,
}
use job_scheduling_simulatio.Model.{
  EdrLifecycle, Event, Error, post_init, lifecycle, ProjectionDecision,
}
use job_scheduling_simulatio.Journal.Wire.{WireEvent, WirePayload, canonical_edr}
use job_scheduling_simulatio.Engine.Store.{VisibilityEngine, apply}

abbrev pub Broker : Type 0
Broker = String → String → WirePayload → Bool

-- `publish`: whether it raises.
unfoldable pub publish_edr : Broker → (WireEvent → String) → String → Event → Bool
unfolding canonical_edr
publish_edr broker sha256 topic event = broker topic event.job_id (canonical_edr sha256 event).0

-- What an event is answered: its decision, if it is not left to the durable projection, with the
-- classification of its type; or an exception (500).
pub data IngestAnswer : Type 0 where
  ingested : String → Option ProjectionDecision → EdrLifecycle → IngestAnswer
  ingestion_failed : IngestAnswer

-- The answer of the engine.
unfoldable pub ingest_here :
    Event → VisibilityEngine × Result Error ProjectionDecision → VisibilityEngine × IngestAnswer
unfolding lifecycle
ingest_here event (engine, ok decision) =
    (engine, ingested decision.event_id (some decision) (lifecycle event))
ingest_here event (engine, raised error) = (engine, ingestion_failed)

unfoldable pub ingest_event :
    Option (Event → Bool) → VisibilityEngine → Result Error Event → VisibilityEngine × IngestAnswer
unfolding ingest_here apply
ingest_event ingress engine (raised error) = (engine, ingestion_failed)
ingest_event none engine (ok event) = ingest_here event (apply engine event none)
ingest_event (some publish) engine (ok event) =
    if publish event
    then (engine, ingestion_failed)
    else (engine, ingested event.event_id none (lifecycle event))

-- `ingest_edr`, of the fields of a request.
unfoldable pub ingest_edr :
    Option (Event → Bool) → VisibilityEngine → Event → VisibilityEngine × IngestAnswer
unfolding ingest_event post_init
ingest_edr ingress engine fields = ingest_event ingress engine (post_init fields)
