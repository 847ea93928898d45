-- ===== src/Journal/Parse.antt =====
-- `event_from_wire` of src/job_visibility/edr_store/projection_worker.py. A value of another JSON type
-- than its key has by the schema of the topic is refused.
use job_scheduling_simulatio.Prelude.{
  ℕ, String, Bool, Option, none, some, if◌then◌else◌, ◌==◌, nat_key, text_key, lookup, Result, ok,
  raised,
}
use job_scheduling_simulatio.Model.{
  Event, Error, make_event, post_init, code_key, value_error, key_error,
}
use job_scheduling_simulatio.Journal.Wire.{
  Json, WireEvent, find_event_type, event_type_of, time_of, optional_time, json_null, json_text,
  json_number, json_boolean, iso_text,
}

-- `data[key]`.
abbrev pub required : Option Json → Result Error Json
required none = raised key_error
required (some value) = ok value

abbrev pub text_of : Json → Result Error String
text_of (json_text value) = ok value
text_of (iso_text value) = raised value_error
text_of _ = raised value_error

-- `data.get(key)` of a text that may be missing.
abbrev pub optional_text : Option Json → Result Error (Option String)
optional_text none = ok none
optional_text (some json_null) = ok none
optional_text (some (json_text value)) = ok (some value)
optional_text (some _) = raised value_error

abbrev pub optional_boolean : Option Json → Result Error (Option Bool)
optional_boolean none = ok none
optional_boolean (some json_null) = ok none
optional_boolean (some (json_boolean value)) = ok (some value)
optional_boolean (some _) = raised value_error

-- `data.get(key, default)` of a number.
abbrev pub number_or : ℕ → Option Json → Result Error ℕ
number_or default none = ok default
number_or default (some (json_number n)) = ok n
number_or default (some _) = raised value_error

-- `data.get(key) or default`.
abbrev pub text_or_default : Option String → String → String
text_or_default none default = default
text_or_default (some value) default = if value == "" then default else value

-- What follows a step that may raise.
abbrev pub and_read {ℓ} :
    {A : Type ℓ} → Result Error A → (A → Result Error Event) → Result Error Event
and_read (raised error) f = raised error
and_read (ok a) f = f a

-- The arguments of `Event(…)` in `event_from_wire`, read in their order.
unfoldable pub wire_fields : WireEvent → Result Error Event
unfolding lookup find_event_type
wire_fields wire = and_read (required (lookup "eventId" wire)) λ id_value.
    and_read (text_of id_value) λ event_id.
      and_read (required (lookup "eventType" wire)) λ type_value.
        and_read (text_of type_value) λ type_text. and_read (event_type_of type_text) λ event_type.
          and_read (required (lookup "eventTime" wire)) λ time_value.
            and_read (time_of time_value) λ event_time.
              and_read (required (lookup "ingestionTime" wire)) λ ingested_value.
                and_read (time_of ingested_value) λ ingestion_time.
                  and_read (required (lookup "jobId" wire)) λ job_value.
                    and_read (text_of job_value) λ job_id.
                      and_read (optional_text (lookup "correlationId" wire)) λ correlation_id.
                        and_read (optional_text (lookup "jobType" wire)) λ job_type.
                          and_read (optional_time (lookup "scheduledAt" wire)) λ scheduled_at.
                            and_read (number_or 0 (lookup "attemptNumber" wire)) λ attempt_number.
                              and_read (number_or 3 (lookup "maxAttempts" wire)) λ max_attempts.
                                and_read (optional_boolean (lookup "retryable" wire)) λ retryable.
                                  and_read (optional_time (lookup "nextRetryAt" wire))
                                    λ next_retry_at.
                                      and_read (optional_text (lookup "resultCode" wire))
                                        λ result_code.
                                          and_read (optional_text (lookup "errorCode" wire))
                                            λ error_code.
                                              ok
                                                (record (make_event event_id event_type event_time
                                                  ingestion_time job_id) {
                                                    correlation_id =
                                                        text_or_default correlation_id "";
                                                    job_type = text_or_default job_type "GENERIC";
                                                    scheduled_at = scheduled_at;
                                                    attempt_number = attempt_number;
                                                    max_attempts = max_attempts;
                                                    retryable = retryable;
                                                    next_retry_at = next_retry_at;
                                                    result_code = result_code;
                                                    error_code = error_code;
                                                  })

-- `event_from_wire`.
unfoldable pub event_from_wire : WireEvent → Result Error Event
unfolding wire_fields post_init
event_from_wire wire = and_read (wire_fields wire) λ event. post_init event
