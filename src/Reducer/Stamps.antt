-- ===== src/Reducer/Stamps.antt =====
-- The lifecycle timestamps of a job (src/job_visibility/engine.py) do not depend on the order in
-- which its events are reduced. `Stamps` is the abstract view, and `stamp` what an event means for it.
use mathlib.Core.List.{Perm, Permᴰ}
use mathlib.Core.Logic.{∥∥₁_elim}
use job_scheduling_simulatio.Prelude.{
  ◌≡◌, refl, sym, ap, ◌∙◌, Bool, true, false, Option, some, List, [], ◌∷◌, arith, if◌then◌else◌,
  nat_key, text_key, lookup,
}
use job_scheduling_simulatio.Model.{
  EventType, Time, Event, Attempt, code_key, JobVisibility, job_created,
  job_scheduler_submission_requested, job_scheduler_submission_acknowledged, job_execution_started,
}
use job_scheduling_simulatio.Reducer.Reduce.{handle, absorb, project, decide, record_decision}
use job_scheduling_simulatio.Reducer.Rules.{
  earliest, latest, attempt_key, same_outcome, is_semantic_duplicate,
}

pub record Stamps : Type 0 where
  pub created_at : Option Time
  pub submission_requested_at : Option Time
  pub scheduler_acknowledged_at : Option Time
  pub started_at : Option Time
  pub last_event_time : Option Time
  pub data_as_of : Option Time

Stamps-set : IsSet Stamps
Stamps-set = hlevel

abbrev pub stamps : JobVisibility → Stamps
stamps job = record {
  created_at = job.created_at;
  submission_requested_at = job.submission_requested_at;
  scheduler_acknowledged_at = job.scheduler_acknowledged_at;
  started_at = job.started_at;
  last_event_time = job.last_event_time;
  data_as_of = job.data_as_of;
}

abbrev is_job_created : EventType → Bool
is_job_created job_created = true
is_job_created _ = false

abbrev is_submission_requested : EventType → Bool
is_submission_requested job_scheduler_submission_requested = true
is_submission_requested _ = false

abbrev is_submission_acknowledged : EventType → Bool
is_submission_acknowledged job_scheduler_submission_acknowledged = true
is_submission_acknowledged _ = false

abbrev is_execution_started : EventType → Bool
is_execution_started job_execution_started = true
is_execution_started _ = false

-- The earliest time of the events that pass the test.
first : Bool → Option Time → Time → Option Time
first b old time = if b then earliest old (some time) else old

-- The specification: four timestamps are the earliest time of one kind of event, two are the latest
-- time over all events.
pub stamp : Stamps → Event → Stamps
unfolding first
stamp s event = record {
  created_at = first (is_job_created event.event_type) s.created_at event.event_time;
  submission_requested_at =
      first (is_submission_requested event.event_type) s.submission_requested_at event.event_time;
  scheduler_acknowledged_at =
      first (is_submission_acknowledged event.event_type) s.scheduler_acknowledged_at
        event.event_time;
  started_at = first (is_execution_started event.event_type) s.started_at event.event_time;
  last_event_time = latest s.last_event_time (some event.event_time);
  data_as_of = latest s.data_as_of (some event.ingestion_time);
}

-- The job after its events, in this order.
unfoldable pub reduce_all : JobVisibility → List Event → JobVisibility
reduce_all job [] = job
reduce_all job (event ∷ rest) = reduce_all (record_decision event (decide job event)).0 rest

pub stamp_all : Stamps → List Event → Stamps
stamp_all s [] = s
stamp_all s (event ∷ rest) = stamp_all (stamp s event) rest

-- What a handler does to the six timestamps.
handle-stamps :
    (k : EventType) (job : JobVisibility) (event : Event)
    → let next = (handle k job event).0 in
      (next.created_at ≡ first (is_job_created k) job.created_at event.event_time)
      × (next.submission_requested_at
          ≡ first (is_submission_requested k) job.submission_requested_at event.event_time)
      × (next.scheduler_acknowledged_at
          ≡ first (is_submission_acknowledged k) job.scheduler_acknowledged_at event.event_time)
      × (next.started_at ≡ first (is_execution_started k) job.started_at event.event_time)
      × (next.last_event_time ≡ job.last_event_time)
      × (next.data_as_of ≡ job.data_as_of)
unfolding handle first
handle-stamps job_created job event = ground arith
handle-stamps _ job event = ground arith

duplicate_is_outcome :
    (k : EventType) (o : Option Attempt)
    → same_outcome k o ≡ true
    → (is_job_created k ≡ false)
      × (is_submission_requested k ≡ false)
      × (is_submission_acknowledged k ≡ false)
      × (is_execution_started k ≡ false)
unfolding same_outcome
duplicate_is_outcome job_created o h = ground arith
duplicate_is_outcome _ o h = ground arith

-- The reduction implements the specification: one event changes the timestamps as `stamp` says.
pub stamps-decide :
    (job : JobVisibility) (event : Event)
    → stamps (record_decision event (decide job event)).0 ≡ stamp (stamps job) event
unfolding record_decision decide project absorb is_semantic_duplicate stamp
stamps-decide job event = ground (
  arith,
  handle-stamps event.event_type (absorb job event) event,
  duplicate_is_outcome event.event_type (lookup (attempt_key event) job.attempts),
)

pub stamps-reduce_all :
    (job : JobVisibility) (events : List Event)
    → stamps (reduce_all job events) ≡ stamp_all (stamps job) events
unfolding reduce_all stamp_all
stamps-reduce_all job [] = refl
stamps-reduce_all job (event ∷ rest) =
    stamps-reduce_all (record_decision event (decide job event)).0 rest
    ∙ ap (λ s. stamp_all s rest) (stamps-decide job event)

first_comm :
    (a b : Bool) (old : Option Time) (x y : Time)
    → first b (first a old x) y ≡ first a (first b old y) x
unfolding first earliest
first_comm a b old x y = ground arith

latest_comm :
    (old : Option Time) (x y : Time)
    → latest (latest old (some x)) (some y) ≡ latest (latest old (some y)) (some x)
unfolding latest
latest_comm old x y = ground arith

stamp_comm : (s : Stamps) (a b : Event) → stamp (stamp s a) b ≡ stamp (stamp s b) a
unfolding stamp
stamp_comm s a b =
    let j = a.event_type in
    let k = b.event_type in
    let x = a.event_time in
    let y = b.event_time in
    λ i. record {
      created_at = first_comm (is_job_created j) (is_job_created k) s.created_at x y i;
      submission_requested_at =
          first_comm (is_submission_requested j) (is_submission_requested k)
            s.submission_requested_at x y i;
      scheduler_acknowledged_at =
          first_comm (is_submission_acknowledged j) (is_submission_acknowledged k)
            s.scheduler_acknowledged_at x y i;
      started_at = first_comm (is_execution_started j) (is_execution_started k) s.started_at x y i;
      last_event_time = latest_comm s.last_event_time x y i;
      data_as_of = latest_comm s.data_as_of a.ingestion_time b.ingestion_time i;
    }

stamp_all-permᴰ :
    {xs ys : List Event} (p : Permᴰ xs ys) (s : Stamps) → stamp_all s xs ≡ stamp_all s ys
unfolding stamp_all
stamp_all-permᴰ Permᴰ.nil s = refl
stamp_all-permᴰ (Permᴰ.cons {l₂ = l} e p) s =
    stamp_all-permᴰ p (stamp s _) ∙ ap (λ a. stamp_all (stamp s a) l) e
stamp_all-permᴰ (Permᴰ.swap {b = d} {a' = a} {b' = b} {l = l} e f) s =
    ap (λ x. stamp_all (stamp (stamp s x) d) l) e
    ∙ ap (λ x. stamp_all (stamp (stamp s b) x) l) f
    ∙ ap (λ t. stamp_all t l) (stamp_comm s b a)
stamp_all-permᴰ (Permᴰ.trans p q) s = stamp_all-permᴰ p s ∙ stamp_all-permᴰ q s

stamp_all-perm : (xs ys : List Event) (s : Stamps) → Perm xs ys → stamp_all s xs ≡ stamp_all s ys
stamp_all-perm xs ys s p = ∥∥₁_elim p (Stamps-set _ _) (λ q. stamp_all-permᴰ q s)

-- Whatever order the events of a job are reduced in, duplicates and ignored ones included, six of its
-- times come out the same: created_at, submission_requested_at, scheduler_acknowledged_at, started_at,
-- last_event_time and data_as_of.
pub reduce_all-perm :
    (job : JobVisibility) (xs ys : List Event)
    → Perm xs ys
    → stamps (reduce_all job xs) ≡ stamps (reduce_all job ys)
reduce_all-perm job xs ys p =
    stamps-reduce_all job xs ∙ stamp_all-perm xs ys (stamps job) p ∙ sym (stamps-reduce_all job ys)
