-- ===== src/Journal/Tests.antt =====
-- Concrete runs of the journal and its projection of src/job_visibility/edr_store.
use mathlib.Core.Path.{subst}
use mathlib.Core.List.{Memᴰ}
use job_scheduling_simulatio.Prelude.{
  String, ◌≡◌, refl, sym, ◌⊎◌, Bool, true, Option, none, some, arith, sort, is_some, ◌==◌, nat_key,
  text_key, length, All, lookup, insert, Result, ok, raised,
}
use job_scheduling_simulatio.Model.{
  EventType, Status, Time, Event, Error, make_event, code_key, JobVisibility, job_created,
  job_execution_started, value_error,
}
use job_scheduling_simulatio.Journal.Replays.{IsSound}
use job_scheduling_simulatio.Journal.RoundTrip.{carried, event_from_wire-canonical_edr}
use job_scheduling_simulatio.Journal.Interleaving.{late_write, late_write_stale}
use job_scheduling_simulatio.Journal.Malformed.{run_round-malformed}
use job_scheduling_simulatio.Journal.Parse.{event_from_wire}
use job_scheduling_simulatio.Journal.Progress.{
  no_lock, no_row_fault, no_hook, calm_round, run_round_sound,
}
use job_scheduling_simulatio.Journal.Logs.{IsLogged}
use job_scheduling_simulatio.Journal.Wire.{WireEvent, find_event_type, canonical_edr}
use job_scheduling_simulatio.Journal.Sound.{projection_of_sound}
use job_scheduling_simulatio.Journal.Tables.{EdrRow, VisibilityRow, EdrDatabase}
use job_scheduling_simulatio.Journal.Projector.{
  ProjectionFailure, projection_of, event_ids, pending_rows, run_round, journal_jobs, rebuild,
}
use job_scheduling_simulatio.Journal.Consistency.{Reaches-settled}
use job_scheduling_simulatio.Journal.Reachable.{empty_database, arrive, Reaches, Awaits}
use job_scheduling_simulatio.Journal.Restores.{rebuild-restores}
use job_scheduling_simulatio.Journal.Current.{Current}
use job_scheduling_simulatio.Reducer.Reduce.{project, decide, record_decision, reduce_visibility}
use job_scheduling_simulatio.Reducer.Rules.{latest, is_semantic_duplicate}
use job_scheduling_simulatio.Engine.Store.{apply}

abbrev created : Event
created = record (make_event "e1" job_created 10 11 "job-1") {
  correlation_id = "c";
  max_attempts = 3;
}

abbrev no_digest : WireEvent → String
no_digest payload = "digest"

event_from_wire-canonical_edr_example :
    event_from_wire (canonical_edr no_digest created).0.canonical_payload ≡ ok (carried created)
event_from_wire-canonical_edr_example =
    event_from_wire-canonical_edr no_digest created (omega arith)

abbrev wire : String → EventType → Time → WireEvent
wire event_id kind time =
    (canonical_edr no_digest (record (make_event event_id kind time time "job-1") {
      attempt_number = 1;
    })).0.canonical_payload

abbrev first : EdrRow
first = record {
  event_id = "e1";
  job_id = "job-1";
  canonical_payload = wire "e1" job_created 10;
  persisted_at = 20;
}

abbrev second : EdrRow
second = record {
  event_id = "e2";
  job_id = "job-1";
  canonical_payload = wire "e2" job_execution_started 12;
  persisted_at = 21;
}

abbrev journal_of_two : EdrDatabase
journal_of_two = arrive second (arrive first empty_database)

journal_of_two-Reaches : Reaches journal_of_two
journal_of_two-Reaches = Reaches.arrives (Reaches.arrives Reaches.begins first refl) second refl

first-Mem : Memᴰ first journal_of_two.events
first-Mem = Memᴰ.head refl

wire-IsSound : All IsSound journal_of_two.events
unfolding event_from_wire canonical_edr lookup find_event_type
wire-IsSound = (
  record {
    event = record (make_event "e1" job_created 10 10 "job-1") { attempt_number = 1 };
    built = refl;
    same_id = refl;
    same_job = refl;
  },
  (
    record {
      event = record (make_event "e2" job_execution_started 12 12 "job-1") { attempt_number = 1 };
      built = refl;
      same_id = refl;
      same_job = refl;
    },
    tt,
  ),
)

-- One round projects both rows.
two_rows_are_projected : (calm_round 5 journal_of_two).1 ≡ ok 2
unfolding pending_rows sort lookup
two_rows_are_projected = (run_round_sound no_lock 5 journal_of_two wire-IsSound).0

abbrev after_one_round : EdrDatabase
after_one_round = (calm_round 1 journal_of_two).0

first_remains : Memᴰ first after_one_round.events
first_remains =
    subst (λ events. Memᴰ first events)
      (sym (run_round_sound no_lock 1 journal_of_two wire-IsSound).1.keeps.same_events) first-Mem

Reaches-settled_example : Awaits after_one_round "job-1" ⊎ Current after_one_round "job-1"
Reaches-settled_example =
    Reaches-settled after_one_round first
      (Reaches.projects journal_of_two-Reaches no_lock 1 no_row_fault no_hook) first_remains

rebuild-restores_example :
    ((rebuild journal_of_two).1 ≡ ok (length (journal_jobs journal_of_two.events)))
    × Current (rebuild journal_of_two).0 "job-1"
rebuild-restores_example = rebuild-restores journal_of_two first wire-IsSound first-Mem

-- A row that allows no attempt.
abbrev malformed : EdrRow
malformed = record first {
  canonical_payload =
      (canonical_edr no_digest (record created { max_attempts = 0 })).0.canonical_payload;
}

malformed-refused : event_from_wire malformed.canonical_payload ≡ raised value_error
unfolding event_from_wire canonical_edr lookup find_event_type
malformed-refused = refl

abbrev blocked : EdrDatabase
blocked = arrive second (arrive malformed empty_database)

second_is_pending : Memᴰ second (pending_rows no_lock 5 blocked)
unfolding pending_rows sort lookup
second_is_pending = Memᴰ.tail (Memᴰ.head refl)

run_round-malformed_example :
    (failure : ProjectionFailure) × (run_round no_lock 5 no_row_fault no_hook blocked
      ≡ (blocked, raised failure))
run_round-malformed_example =
    run_round-malformed no_lock 5 no_row_fault no_hook blocked value_error malformed second
      malformed-refused (Memᴰ.head refl) second_is_pending refl

abbrev journal_of_one : EdrDatabase
journal_of_one = arrive first empty_database

-- The second worker leaves the row that the first has locked.
abbrev first_locked : EdrRow → Bool
first_locked row = row.event_id == "e1"

one-IsSound : All IsSound journal_of_one.events
one-IsSound = (wire-IsSound.0, tt)

abbrev read_by_first :
    (p : JobVisibility × VisibilityRow) × (projection_of journal_of_one.events "job-1" ≡ ok p)
    × IsLogged (event_ids journal_of_one.events) p.0
read_by_first = projection_of_sound journal_of_one.events first one-IsSound (Memᴰ.head refl)

second_is_batched : Memᴰ second (pending_rows first_locked 5 journal_of_two)
unfolding pending_rows sort lookup
second_is_batched = Memᴰ.head refl

late_write_stale_example :
    let next = (run_round first_locked 5 no_row_fault no_hook journal_of_two).0 in
    Current next "job-1"
    × ((final : EdrDatabase) × (late_write first read_by_first.0 next ≡ ok final)
        × (lookup "job-1" final.visibility ≡ some read_by_first.0.1)
        × (is_some (lookup "e1" final.projected) ≡ true)
        × (is_some (lookup "e2" final.projected) ≡ true))
late_write_stale_example =
    late_write_stale first_locked 5 journal_of_one first second read_by_first.0 refl read_by_first.1
      second_is_batched wire-IsSound

abbrev status_of : Result Error (JobVisibility × VisibilityRow) → Option Status
status_of (ok p) = some p.1.recorded_status
status_of (raised error) = none

-- The two journals of the example give two statuses.
statuses_differ :
    (status_of (projection_of journal_of_one.events "job-1") ≡ some Status.created)
    × (status_of (projection_of journal_of_two.events "job-1") ≡ some Status.running)
unfolding projection_of sort apply reduce_visibility lookup insert record_decision latest decide
    is_semantic_duplicate project canonical_edr
statuses_differ = (refl, refl)
