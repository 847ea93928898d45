-- ===== src/Repository/Tests.antt =====
-- Concrete saves of src/job_visibility/persistence/memory.py.
use job_scheduling_simulatio.Prelude.{◌≡◌, refl, some, arith, nat_key, text_key, lookup, ok, raised}
use job_scheduling_simulatio.Model.{code_key, JobVisibility, new_job, version_conflict}
use job_scheduling_simulatio.Repository.Saves.{save_twice}
use job_scheduling_simulatio.Repository.Memory.{
  InMemoryVisibilityRepository, new_repository, get, save,
}

abbrev repository : InMemoryVisibilityRepository
repository = new_repository

abbrev job : JobVisibility
job = record (new_job "job-1") { version = 1 }

abbrev other_job : JobVisibility
other_job = record (new_job "job-1") { version = 2 }

save_twice_example :
    ((save repository job (some 0)).1 ≡ ok tt)
    × (save (save repository job (some 0)).0 other_job (some 0)
        ≡ ((save repository job (some 0)).0, raised (version_conflict 0 1)))
unfolding get lookup
save_twice_example = save_twice repository job other_job refl (ground arith)
