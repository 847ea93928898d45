-- ===== src/Model/Events.antt =====
-- The EDR: `Event` of src/job_visibility/model.py. A `datetime` is a number of microseconds since a
-- fixed instant, and a `timedelta(seconds=s)` is `seconds s`.
use job_scheduling_simulatio.Prelude.{
  ℕ, ◌*◌, ◌/◌, ◌-◌, String, Option, none, Bool, if◌then◌else◌, ltb, Result, ok, raised,
}
use job_scheduling_simulatio.Model.EventTypes.{EventType, EdrLifecycle, classify_event}

abbrev pub Time : Type 0
Time = ℕ

abbrev pub seconds : ℕ → ℕ
seconds s = s * 1000000

-- `max(0, int((later - earlier).total_seconds()))`.
abbrev pub whole_seconds : Time → Time → ℕ
whole_seconds later earlier = (later - earlier) / 1000000

pub record Event : Type 0 where
  pub event_id : String
  pub event_type : EventType
  pub event_time : Time
  pub ingestion_time : Time
  pub job_id : String
  pub correlation_id : String
  pub job_type : String
  pub source_system : String
  pub scheduler_reference : Option String
  pub scheduled_at : Option Time
  pub attempt_number : ℕ
  pub retryable : Option Bool
  pub max_attempts : ℕ
  pub next_retry_at : Option Time
  pub result_code : Option String
  pub error_code : Option String
  pub error_message : Option String
  pub trace_id : Option String
  pub payload_reference : Option String
  pub poll_id : Option String
  pub poll_time : Option Time
  pub batch_position : Option ℕ
  pub batch_limit : Option ℕ

-- What the model's constructors and the engine raise.
pub data Error : Type 0 where
  value_error : Error
  key_error : Error
  index_error : Error
  job_not_found : String → Error
  version_conflict : ℕ → ℕ → Error

-- `Event(...)` with the defaults of the class for all that is not given.
abbrev pub make_event : String → EventType → Time → Time → String → Event
make_event id kind time ingested job = record {
  event_id = id;
  event_type = kind;
  event_time = time;
  ingestion_time = ingested;
  job_id = job;
  correlation_id = "";
  job_type = "GENERIC";
  source_system = "simulation";
  scheduler_reference = none;
  scheduled_at = none;
  attempt_number = 0;
  retryable = none;
  max_attempts = 3;
  next_retry_at = none;
  result_code = none;
  error_code = none;
  error_message = none;
  trace_id = none;
  payload_reference = none;
  poll_id = none;
  poll_time = none;
  batch_position = none;
  batch_limit = none;
}

-- `__post_init__`. An attempt number is a natural number here, so it is not negative.
unfoldable pub post_init : Event → Result Error Event
post_init event = if ltb event.max_attempts 1 then raised value_error else ok event

unfoldable pub lifecycle : Event → EdrLifecycle
lifecycle event = classify_event event.event_type
