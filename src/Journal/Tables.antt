-- ===== src/Journal/Tables.antt =====
-- The tables that src/job_visibility/edr_store reads and writes, and their single statements.
use job_scheduling_simulatio.Prelude.{
  ℕ, String, Bool, not, ◌&&◌, Option, none, some, List, [], ◌∷◌, if◌then◌else◌, is_some, ◌==◌,
  nat_key, text_key, select, contains, Dict, lookup, insert,
}
use job_scheduling_simulatio.Model.{
  Status, Time, Attempt, FindingCode, code_key, Finding, Decision, ProjectionDecision,
}
use job_scheduling_simulatio.Journal.Wire.{WireEvent}
use job_scheduling_simulatio.Engine.View.{Response}

-- A row of `edr_events`, of which `event_id` is the key.
pub record EdrRow : Type 0 where
  pub event_id : String
  pub job_id : String
  pub canonical_payload : WireEvent
  pub persisted_at : Time

-- A row of `job_visibility`, whose key is the job.
pub record VisibilityRow : Type 0 where
  pub correlation_id : String
  pub job_type : String
  pub recorded_status : Status
  pub projection : Response
  pub data_as_of : Option Time
  pub version : ℕ

-- A row of `job_attempts`.
pub record AttemptProjection : Type 0 where
  pub job_id : String
  pub attempt_number : ℕ
  pub projection : Attempt

-- A row of `projection_decisions`, whose key is the event.
pub record DecisionRow : Type 0 where
  pub job_id : String
  pub decision : Decision
  pub reason : Option String

-- A row of `reconciliation_findings`.
pub record FindingRow : Type 0 where
  pub job_id : String
  pub code : FindingCode
  pub message : String
  pub first_observed_at : Time
  pub active : Bool
  pub resolved_at : Option Time

-- The EDR database. `projected` has the job of each event that is projected.
pub record EdrDatabase : Type 0 where
  pub events : List EdrRow
  pub projected : Dict String String
  pub visibility : Dict String VisibilityRow
  pub attempts : List AttemptProjection
  pub decisions : Dict String DecisionRow
  pub findings : List FindingRow

-- `ON CONFLICT DO NOTHING`.
unfoldable pub insert_new {ℓ} : {V : Type ℓ} → String → V → Dict String V → Dict String V
insert_new key value table = if is_some (lookup key table) then table else insert key value table

-- `DELETE FROM job_attempts WHERE job_id=:job_id`.
unfoldable pub delete_attempts : String → List AttemptProjection → List AttemptProjection
delete_attempts job_id rows = select (λ row. not (row.job_id == job_id)) rows

-- The number of an attempt is `event.attempt_number or 1`, so that `CHECK (attempt_number > 0)` holds.
unfoldable pub insert_attempts : String → List Attempt → List AttemptProjection
insert_attempts job_id [] = []
insert_attempts job_id (attempt ∷ rest) =
    record { job_id = job_id; attempt_number = attempt.attempt_number; projection = attempt }
    ∷ insert_attempts job_id rest

-- `INSERT INTO projection_decisions … ON CONFLICT DO NOTHING`, for a decision of a job. `event_ids` has
-- the keys of `edr_events`: none is the violation of `event_id REFERENCES edr_events(event_id)`.
unfoldable pub insert_decision :
    List String
    → String
    → ProjectionDecision
    → Dict String DecisionRow
    → Option (Dict String DecisionRow)
insert_decision event_ids job_id decision table =
    if is_some (lookup decision.event_id table)
    then some table
    else if contains decision.event_id event_ids
    then some (
        insert decision.event_id
          (record { job_id = job_id; decision = decision.decision; reason = decision.reason })
          table)
    else none

abbrev pub and_insert :
    Option (Dict String DecisionRow)
    → (Dict String DecisionRow → Option (Dict String DecisionRow))
    → Option (Dict String DecisionRow)
and_insert none f = none
and_insert (some table) f = f table

unfoldable pub insert_decisions :
    List String
    → String
    → List ProjectionDecision
    → Dict String DecisionRow
    → Option (Dict String DecisionRow)
unfolding insert_decision
insert_decisions event_ids job_id [] table = some table
insert_decisions event_ids job_id (decision ∷ rest) table =
    and_insert (insert_decision event_ids job_id decision table)
      λ next. insert_decisions event_ids job_id rest next

-- `ON CONFLICT(job_id,code,first_observed_at) DO UPDATE SET active=…,resolved_at=…`.
unfoldable pub upsert_finding : String → Finding → List FindingRow → List FindingRow
upsert_finding job_id finding [] =
    record {
      job_id = job_id;
      code = finding.code;
      message = finding.message;
      first_observed_at = finding.first_observed_at;
      active = finding.active;
      resolved_at = finding.resolved_at;
    }
    ∷ []
upsert_finding job_id finding (row ∷ rows) =
    let rest = upsert_finding job_id finding rows in
    if row.job_id == job_id
      && row.code == finding.code
      && row.first_observed_at == finding.first_observed_at
    then record row { active = finding.active; resolved_at = finding.resolved_at } ∷ rows
    else row ∷ rest

unfoldable pub upsert_findings : String → List Finding → List FindingRow → List FindingRow
unfolding upsert_finding
upsert_findings job_id [] rows = rows
upsert_findings job_id (finding ∷ rest) rows =
    upsert_findings job_id rest (upsert_finding job_id finding rows)
