-- ===== src/Journal/RoundTrip.antt =====
-- What an event keeps on its way over the wire: `event_from_wire` of
-- src/job_visibility/edr_store/projection_worker.py after `canonical_edr` of
-- src/job_visibility/outbox/serialization.py.
use job_scheduling_simulatio.Prelude.{
  ◌-◌, ◌≤◌, String, ◌≡◌, refl, sym, ap, inl, inr, Bool, false, Option, none, some, arith, ltb,
  if◌then◌else◌, Bool-cases, ◌==◌, nat_key, text_key, lookup, ok,
}
use job_scheduling_simulatio.Model.{
  EventType, Time, Event, code_key, job_created, job_scheduler_submission_requested,
  job_scheduler_submission_acknowledged, job_scheduler_submission_failed,
  job_scheduler_item_retrieved, job_execution_started, job_execution_succeeded,
  job_execution_failed, job_retry_requested, job_retry_acknowledged, job_retry_rejected,
  job_retries_exhausted, job_cancelled,
}
use job_scheduling_simulatio.Journal.Parse.{
  optional_text, optional_boolean, text_or_default, event_from_wire,
}
use job_scheduling_simulatio.Journal.Wire.{
  WireEvent, event_type_value, find_event_type, event_type_of, iso_or_null, optional_time, or_none,
  text_or_null, boolean_or_null, domain_payload, canonical_edr,
}

-- The event without the fields that the wire form does not have; an empty type of job becomes GENERIC.
abbrev pub carried : Event → Event
carried event = record event {
  job_type = if event.job_type == "" then "GENERIC" else event.job_type;
  source_system = "simulation";
  scheduler_reference = none;
  error_message = none;
  trace_id = none;
  payload_reference = none;
  poll_id = none;
  poll_time = none;
  batch_position = none;
  batch_limit = none;
}

text_of_type : (kind : EventType) → event_type_of (event_type_value kind) ≡ ok kind
unfolding find_event_type
text_of_type job_created = refl
text_of_type job_scheduler_submission_requested = refl
text_of_type job_scheduler_submission_acknowledged = refl
text_of_type job_scheduler_submission_failed = refl
text_of_type job_scheduler_item_retrieved = refl
text_of_type job_execution_started = refl
text_of_type job_execution_succeeded = refl
text_of_type job_execution_failed = refl
text_of_type job_retry_requested = refl
text_of_type job_retry_acknowledged = refl
text_of_type job_retry_rejected = refl
text_of_type job_retries_exhausted = refl
text_of_type job_cancelled = refl

same_instant : (time : Time) → time - 0 ≡ time
same_instant time = omega arith

iso_or_null-time : (time : Option Time) → optional_time (some (iso_or_null time)) ≡ ok time
iso_or_null-time none = refl
iso_or_null-time (some time) = ap (λ t. ok (some t)) (same_instant time)

text_or_null-text : (value : Option String) → optional_text (some (text_or_null value)) ≡ ok value
text_or_null-text none = refl
text_or_null-text (some value) = refl

boolean_or_null-boolean :
    (value : Option Bool) → optional_boolean (some (boolean_or_null value)) ≡ ok value
boolean_or_null-boolean none = refl
boolean_or_null-boolean (some value) = refl

-- What an empty text is read as.
abbrev none_if_empty : String → Option String
none_if_empty value = if value == "" then none else some value

or_none-text : (value : String) → optional_text (some (or_none value)) ≡ ok (none_if_empty value)
or_none-text value = elim (Bool-cases (value == "")) [ inl e ↦ rw e refl | inr e ↦ rw e refl ]

none_if_empty-default :
    (value default : String)
    → text_or_default (none_if_empty value) default ≡ (if value == "" then default else value)
none_if_empty-default value default = elim (Bool-cases (value == "")) [
  | inl e ↦ rw e refl
  | inr e ↦ rw e (rw e refl)
]

empty_or_same : (text : String) → (if text == "" then "" else text) ≡ text
empty_or_same text = elim (Bool-cases (text == "")) [
  | inl e ↦ rw e (sym ((text_key.same_iff text "").0 e))
  | inr e ↦ rw e
]

-- An event with at least one attempt allowed comes back from its JSON object, with its times rendered
-- and read again, with every field that the form has, and with the defaults for those that it does not
-- have.
pub event_from_wire-canonical_edr :
    (sha256 : WireEvent → String) (event : Event)
    → 1 ≤ event.max_attempts
    → event_from_wire (canonical_edr sha256 event).0.canonical_payload ≡ ok (carried event)
unfolding event_from_wire canonical_edr domain_payload lookup
event_from_wire-canonical_edr sha256 event valid =
    let small : ltb event.max_attempts 1 ≡ false = ground (arith, valid) in
    simp (
      text_of_type, same_instant, iso_or_null-time, text_or_null-text, boolean_or_null-boolean,
      or_none-text, none_if_empty-default, empty_or_same, small,
    )
