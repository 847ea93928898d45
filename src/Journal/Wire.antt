-- ===== src/Journal/Wire.antt =====
-- The wire form of an event: `canonical_edr` of src/job_visibility/outbox/serialization.py, and
-- `event_from_wire` of src/job_visibility/edr_store/projection_worker.py, over JSON objects.
use job_scheduling_simulatio.Prelude.{
  ℕ, zero, suc, ◌+◌, ◌-◌, ◌*◌, String, Bool, Option, none, some, List, [], ◌∷◌, if◌then◌else◌, ◌==◌,
  nat_key, text_key, Dict, Result, ok, raised,
}
use job_scheduling_simulatio.Model.{
  EventType, Time, seconds, Event, Error, job_created, job_scheduler_submission_requested,
  job_scheduler_submission_acknowledged, job_scheduler_submission_failed,
  job_scheduler_item_retrieved, job_execution_started, job_execution_succeeded,
  job_execution_failed, job_retry_requested, job_retry_acknowledged, job_retry_rejected,
  job_retries_exhausted, job_cancelled, value_error,
}

-- The zone at the end of an ISO 8601 text: `Z`, or an offset in minutes, of which `+00:00` is `east 0`.
pub data Zone : Type 0 where
  zulu : Zone
  east west : ℕ → Zone

-- The ISO 8601 text of a time: its date and time of day, as the microseconds that they stand for, and
-- its zone.
pub record IsoText : Type 0 where
  pub local_time : Time
  pub zone : Zone

-- A scalar of JSON; a text that is not the ISO text of a time is a `json_text`.
pub data Json : Type 0 where
  json_null : Json
  json_text : String → Json
  json_number : ℕ → Json
  json_boolean : Bool → Json
  iso_text : IsoText → Json

abbrev pub WireEvent : Type 0
WireEvent = Dict String Json

-- `EventType.value`.
abbrev pub event_type_value : EventType → String
event_type_value job_created = "JOB_CREATED"
event_type_value job_scheduler_submission_requested = "JOB_SCHEDULER_SUBMISSION_REQUESTED"
event_type_value job_scheduler_submission_acknowledged = "JOB_SCHEDULER_SUBMISSION_ACKNOWLEDGED"
event_type_value job_scheduler_submission_failed = "JOB_SCHEDULER_SUBMISSION_FAILED"
event_type_value job_scheduler_item_retrieved = "JOB_SCHEDULER_ITEM_RETRIEVED"
event_type_value job_execution_started = "JOB_EXECUTION_STARTED"
event_type_value job_execution_succeeded = "JOB_EXECUTION_SUCCEEDED"
event_type_value job_execution_failed = "JOB_EXECUTION_FAILED"
event_type_value job_retry_requested = "JOB_RETRY_REQUESTED"
event_type_value job_retry_acknowledged = "JOB_RETRY_ACKNOWLEDGED"
event_type_value job_retry_rejected = "JOB_RETRY_REJECTED"
event_type_value job_retries_exhausted = "JOB_RETRIES_EXHAUSTED"
event_type_value job_cancelled = "JOB_CANCELLED"

-- The members of `EventType`.
abbrev pub event_types : List EventType
event_types =
    job_created ∷ job_scheduler_submission_requested ∷ job_scheduler_submission_acknowledged
    ∷ job_scheduler_submission_failed ∷ job_scheduler_item_retrieved ∷ job_execution_started
    ∷ job_execution_succeeded ∷ job_execution_failed ∷ job_retry_requested ∷ job_retry_acknowledged
    ∷ job_retry_rejected ∷ job_retries_exhausted ∷ job_cancelled ∷ []

unfoldable pub find_event_type : String → List EventType → Option EventType
find_event_type value [] = none
find_event_type value (kind ∷ kinds) =
    let rest = find_event_type value kinds in
    if event_type_value kind == value then some kind else rest

-- `EventType(value)`.
abbrev pub event_type_of : String → Result Error EventType
event_type_of value = elim (find_event_type value event_types) [
  | none ↦ raised value_error
  | some kind ↦ ok kind
]

-- `datetime.isoformat` of a time in UTC.
abbrev pub isoformat : Time → IsoText
isoformat time = record { local_time = time; zone = east 0 }

-- `text.replace("+00:00", "Z")`.
abbrev pub zone_to_zulu : Zone → Zone
zone_to_zulu zulu = zulu
zone_to_zulu (east zero) = zulu
zone_to_zulu (east (suc minutes)) = east (suc minutes)
zone_to_zulu (west minutes) = west minutes

-- `text.replace("Z", "+00:00")`.
abbrev pub zone_from_zulu : Zone → Zone
zone_from_zulu zulu = east 0
zone_from_zulu (east minutes) = east minutes
zone_from_zulu (west minutes) = west minutes

-- `iso` of a time.
abbrev pub iso : Time → Json
iso time = iso_text (record { local_time = time; zone = zone_to_zulu (isoformat time).zone })

-- `iso` of a time that may be None.
abbrev pub iso_or_null : Option Time → Json
iso_or_null none = json_null
iso_or_null (some time) = iso time

-- The time that `datetime.fromisoformat` reads.
abbrev pub fromisoformat : Time → Zone → Time
fromisoformat local zulu = local
fromisoformat local (east minutes) = local - seconds (60 * minutes)
fromisoformat local (west minutes) = local + seconds (60 * minutes)

-- `datetime.fromisoformat(value.replace("Z", "+00:00"))` of a value of an object.
abbrev pub time_of : Json → Result Error Time
time_of (iso_text value) = ok (fromisoformat value.local_time (zone_from_zulu value.zone))
time_of _ = raised value_error

-- `_time`.
abbrev pub optional_time : Option Json → Result Error (Option Time)
optional_time none = ok none
optional_time (some json_null) = ok none
optional_time (some (json_text value)) = if value == "" then ok none else raised value_error
optional_time (some (iso_text value)) =
    ok (some (fromisoformat value.local_time (zone_from_zulu value.zone)))
optional_time (some (json_number n)) = raised value_error
optional_time (some (json_boolean b)) = raised value_error

-- `text or None`.
abbrev pub or_none : String → Json
or_none value = if value == "" then json_null else json_text value

abbrev pub text_or_null : Option String → Json
text_or_null none = json_null
text_or_null (some value) = json_text value

abbrev pub boolean_or_null : Option Bool → Json
boolean_or_null none = json_null
boolean_or_null (some value) = json_boolean value

-- The domain payload of `canonical_edr`.
unfoldable pub domain_payload : Event → WireEvent
domain_payload event =
    ("schemaVersion", json_number 1)
    ∷ ("eventId", json_text event.event_id)
    ∷ ("eventType", json_text (event_type_value event.event_type))
    ∷ ("eventTime", iso event.event_time)
    ∷ ("ingestionTime", iso event.ingestion_time)
    ∷ ("jobId", json_text event.job_id)
    ∷ ("correlationId", or_none event.correlation_id)
    ∷ ("jobType", or_none event.job_type)
    ∷ ("attemptNumber", json_number event.attempt_number)
    ∷ ("maxAttempts", json_number event.max_attempts)
    ∷ ("scheduledAt", iso_or_null event.scheduled_at)
    ∷ ("nextRetryAt", iso_or_null event.next_retry_at)
    ∷ ("retryable", boolean_or_null event.retryable)
    ∷ ("resultCode", text_or_null event.result_code)
    ∷ ("errorCode", text_or_null event.error_code)
    ∷ []

-- What goes over the wire: the fields, the payload that they were, and its digest.
pub record WirePayload : Type 0 where
  pub fields : WireEvent
  pub canonical_payload : WireEvent
  pub payload_hash : String

-- `canonical_edr`; `sha256` gives the digest of a payload's text.
unfoldable pub canonical_edr : (WireEvent → String) → Event → WirePayload × String
unfolding domain_payload
canonical_edr sha256 event =
    let payload = domain_payload event in
    let digest = sha256 payload in
    (record { fields = payload; canonical_payload = payload; payload_hash = digest }, digest)
