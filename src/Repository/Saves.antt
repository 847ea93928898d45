-- ===== src/Repository/Saves.antt =====
-- What a save in src/job_visibility/persistence/memory.py promises to its readers.
use job_scheduling_simulatio.Prelude.{
  ℕ, String, ◌≡◌, refl, sym, ◌≢◌, ◌⊎◌, inl, inr, true, false, Option, some, arith, nat_eq_iff,
  Bool-cases, ◌==◌, nat_key, text_key, same_refl, lookup, insert, lookup-insert_self,
  lookup-insert_ne, ok, raised,
}
use job_scheduling_simulatio.Model.{code_key, JobVisibility, version_conflict}
use job_scheduling_simulatio.Repository.Memory.{InMemoryVisibilityRepository, get, require, save}
use job_scheduling_simulatio.Engine.Store.{version_of, conflicts, expected_or}

-- A save that conflicts raises and changes nothing; any other is read back under its id by `get` and
-- `require`, and the job of every other id is what it was.
pub save-get :
    (repository : InMemoryVisibilityRepository) (job : JobVisibility) (expected : Option ℕ)
    → (((save repository job expected).0 ≡ repository)
        × ((save repository job expected).1
            ≡ raised
                (version_conflict (expected_or expected) (version_of (get repository job.job_id)))))
      ⊎ (((save repository job expected).1 ≡ ok tt)
          × (get (save repository job expected).0 job.job_id ≡ some job)
          × (require (save repository job expected).0 job.job_id ≡ ok job)
          × ((id : String)
              → job.job_id == id ≡ false
              → get (save repository job expected).0 id ≡ get repository id))
unfolding save get require
save-get repository job expected =
    let actual = version_of (lookup job.job_id repository.jobs) in
    elim (Bool-cases (conflicts expected actual)) [
      | inl e ↦ inl (rw e refl, rw e refl)
      | inr e ↦ inr (
        rw e refl,
        rw e (lookup-insert_self job.job_id job repository.jobs),
        rw (e, require, lookup-insert_self job.job_id job repository.jobs) refl,
        λ id other. rw e (lookup-insert_ne job.job_id id job repository.jobs other),
      )
    ]

-- Of two writers who have read one version of a job, only one can save a new version of it: once the
-- first has, the save of the second raises and changes nothing.
pub save_twice :
    (repository : InMemoryVisibilityRepository) (first second : JobVisibility)
    → first.job_id ≡ second.job_id
    → first.version ≢ version_of (get repository first.job_id)
    → ((save repository first (some (version_of (get repository first.job_id)))).1 ≡ ok tt)
      × (let version = version_of (get repository first.job_id) in
          let next = (save repository first (some version)).0 in
          save next second (some version) ≡ (next, raised (version_conflict version first.version)))
unfolding save get
save_twice repository first second same newer =
    let version = version_of (lookup first.job_id repository.jobs) in
    let granted : conflicts (some version) version ≡ false = ground (arith, same_refl version) in
    let refused : conflicts (some version) first.version ≡ true =
      ground (arith, nat_eq_iff version first.version, newer) in
    let read : version_of (lookup second.job_id (insert first.job_id first repository.jobs))
        ≡ first.version =
      rw (sym same, lookup-insert_self first.job_id first repository.jobs) refl in
    (rw granted refl, rw (granted, read, refused) refl)
