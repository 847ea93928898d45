-- ===== src/Journal/Reader.antt =====
-- `DurableVisibilityReader` of src/job_visibility/edr_store/repository.py. `fault` says whether the
-- injector raises before the query.
use job_scheduling_simulatio.Prelude.{
  String, Bool, true, ◌&&◌, ◌||◌, Option, none, some, List, map, sort, leb, text_le, if◌then◌else◌,
  ◌==◌, nat_key, text_key, select, lookup, Result, ok, raised,
}
use job_scheduling_simulatio.Model.{Status, status_eq, Attempt, code_key}
use job_scheduling_simulatio.Journal.Tables.{
  VisibilityRow, AttemptProjection, FindingRow, EdrDatabase,
}
use job_scheduling_simulatio.Engine.View.{Response}

pub data ReadFailure : Type 0 where
  not_found : String → ReadFailure
  query_fault : ReadFailure

-- `get`.
unfoldable pub read_job : Bool → EdrDatabase → String → Result ReadFailure Response
read_job fault db job_id =
    if fault then raised query_fault else elim (lookup job_id db.visibility) [
      | none ↦ raised (not_found job_id)
      | some row ↦ ok row.projection
    ]

abbrev attempt_number_le : AttemptProjection → AttemptProjection → Bool
attempt_number_le a b = leb a.attempt_number b.attempt_number

-- `attempts`.
unfoldable pub read_attempts : Bool → EdrDatabase → String → Result ReadFailure (List Attempt)
read_attempts fault db job_id =
    if fault then raised query_fault else elim (lookup job_id db.visibility) [
      | none ↦ raised (not_found job_id)
      | some row ↦ ok (
          map (λ a. a.projection)
            (sort attempt_number_le (select (λ a. a.job_id == job_id) db.attempts)))
    ]

-- `recorded_status=:status`, if a status is given.
abbrev pub has_status : Option Status → VisibilityRow → Bool
has_status none row = true
has_status (some status) row = status_eq row.recorded_status status

-- `correlation_id=:correlation`, if one is given that is not empty.
abbrev pub has_correlation : Option String → VisibilityRow → Bool
has_correlation none row = true
has_correlation (some id) row = id == "" || row.correlation_id == id

abbrev job_id_le : String × VisibilityRow → String × VisibilityRow → Bool
job_id_le a b = text_le a.0 b.0

-- `search`.
unfoldable pub search_rows :
    Bool → EdrDatabase → Option Status → Option String → Result ReadFailure (List Response)
search_rows fault db status correlation_id =
    if fault
    then raised query_fault
    else ok (
        map (λ entry. entry.1.projection)
          (sort job_id_le (
            select (λ entry. has_status status entry.1 && has_correlation correlation_id entry.1)
              db.visibility)))

abbrev observed_le : FindingRow → FindingRow → Bool
observed_le a b = leb a.first_observed_at b.first_observed_at

-- `findings`.
unfoldable pub read_findings : Bool → EdrDatabase → Result ReadFailure (List FindingRow)
read_findings fault db = if fault then raised query_fault else ok (sort observed_le db.findings)
