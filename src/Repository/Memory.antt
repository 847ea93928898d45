-- ===== src/Repository/Memory.antt =====
-- `InMemoryVisibilityRepository` of src/job_visibility/persistence/memory.py. A job is a value, so a
-- deep copy is the job itself.
use job_scheduling_simulatio.Prelude.{
  ℕ, String, Option, none, some, List, [], sort, text_le, if◌then◌else◌, nat_key, text_key, Dict,
  lookup, insert, keys, Result, ok, raised,
}
use job_scheduling_simulatio.Model.{Error, code_key, JobVisibility, job_not_found, version_conflict}
use job_scheduling_simulatio.Engine.Store.{version_of, conflicts, expected_or}

pub record InMemoryVisibilityRepository : Type 0 where
  pub jobs : Dict String JobVisibility

abbrev pub new_repository : InMemoryVisibilityRepository
new_repository = record { jobs = [] }

-- `get`.
unfoldable pub get : InMemoryVisibilityRepository → String → Option JobVisibility
get repository job_id = lookup job_id repository.jobs

-- `require`.
unfoldable pub require : InMemoryVisibilityRepository → String → Result Error JobVisibility
unfolding get
require repository job_id = elim (get repository job_id) [
  | none ↦ raised (job_not_found job_id)
  | some job ↦ ok job
]

-- `save`: the repository after it, also where it raises.
unfoldable pub save :
    InMemoryVisibilityRepository
    → JobVisibility
    → Option ℕ
    → InMemoryVisibilityRepository × Result Error (Unit {0})
save repository job expected_version =
    let actual = version_of (lookup job.job_id repository.jobs) in
    if conflicts expected_version actual
    then (repository, raised (version_conflict (expected_or expected_version) actual))
    else (record { jobs = insert job.job_id job repository.jobs }, ok tt)

-- `job_ids`.
unfoldable pub stored_ids : InMemoryVisibilityRepository → List String
stored_ids repository = sort text_le (keys repository.jobs)
