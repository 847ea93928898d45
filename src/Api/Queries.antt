-- ===== src/Api/Queries.antt =====
-- The queries of src/job_visibility/api.py: over the durable reader, if the application has one, and
-- over the engine otherwise.
use job_scheduling_simulatio.Prelude.{
  ℕ, String, Bool, Option, none, some, List, if◌then◌else◌, Result, ok, raised,
}
use job_scheduling_simulatio.Model.{Time, Error, Attempt, job_not_found}
use job_scheduling_simulatio.Journal.Tables.{EdrDatabase}
use job_scheduling_simulatio.Journal.Reader.{
  ReadFailure, read_job, read_attempts, not_found, query_fault,
}
use job_scheduling_simulatio.Engine.View.{Response, get_job, job_attempts}
use job_scheduling_simulatio.Engine.Store.{VisibilityEngine}
use job_scheduling_simulatio.Health.Checks.{HealthService, Conditions, check}

-- The answer to a query: what was found, a missing record (404), or an exception (500).
pub data QueryAnswer {ℓ} (A : Type ℓ) : Type ℓ where
  found_item : A → QueryAnswer A
  record_not_found query_failed : QueryAnswer A

abbrev pub of_reader {ℓ} : {A : Type ℓ} → Result ReadFailure A → QueryAnswer A
of_reader (ok value) = found_item value
of_reader (raised (not_found job_id)) = record_not_found
of_reader (raised query_fault) = query_failed

abbrev pub of_engine {ℓ} : {A : Type ℓ} → Result Error A → QueryAnswer A
of_engine (ok value) = found_item value
of_engine (raised (job_not_found job_id)) = record_not_found
of_engine (raised error) = query_failed

-- `retrieve_job`; `fault` says whether the injector of the reader raises.
unfoldable pub retrieve_job :
    Option EdrDatabase → Bool → VisibilityEngine → String → Time → QueryAnswer Response
unfolding read_job get_job
retrieve_job (some db) fault engine job_id now = of_reader (read_job fault db job_id)
retrieve_job none fault engine job_id now = of_engine (get_job engine job_id now)

-- `retrieve_attempts`.
unfoldable pub retrieve_attempts :
    Option EdrDatabase → Bool → VisibilityEngine → String → QueryAnswer (List Attempt)
unfolding read_attempts job_attempts
retrieve_attempts (some db) fault engine job_id = of_reader (read_attempts fault db job_id)
retrieve_attempts none fault engine job_id = of_engine (job_attempts engine job_id)

-- `readiness`: the status code.
unfoldable pub readiness : Option HealthService → Conditions → ℕ
unfolding check
readiness none conditions = 200
readiness (some health) conditions = if (check health conditions).0 then 200 else 503
