-- ===== src/Engine/Delivery.antt =====
-- Redelivery and the optimistic writer: `apply` and `apply_with_retry` of
-- src/job_visibility/engine.py over several calls.
use mathlib.Core.Option
use mathlib.Core.List.{reverse, reverse-append, map-append}
use job_scheduling_simulatio.Prelude.{
  ℕ, String, ◌≡◌, refl, ap, ◌∙◌, inl, inr, true, false, Option, none, List, [], ◌∷◌, map, Distinct,
  Bool-cases, Option-cases, nat_key, text_key, All, contains, lookup, map-lookup-insert, Result, ok,
  raised,
}
use job_scheduling_simulatio.Model.{Event, Error, code_key, ProjectionDecision, JobVisibility}
use job_scheduling_simulatio.Engine.Store.{
  VisibilityEngine, exact_decision, log_duplicate, version_of, conflicts, store_result, journal,
  apply, apply_all,
}

-- A projection without its log of decisions.
abbrev pub strip : JobVisibility → JobVisibility
strip job = record job { decisions = [] }

-- What the engine shows of a job, its log of decisions left out.
abbrev pub visible : VisibilityEngine → String → Option JobVisibility
visible engine id = Option.map strip (lookup id engine.jobs)

visible-log :
    (engine : VisibilityEngine) (event : Event) (id : String)
    → Option.map strip
        (lookup id (log_duplicate (lookup event.job_id engine.jobs) event engine.jobs))
      ≡ visible engine id
unfolding log_duplicate
visible-log engine event id = elim (Option-cases (lookup event.job_id engine.jobs)) [
  | inl e ↦ rw (e, log_duplicate)
  | inr (job, e) ↦
      rw (e, log_duplicate) (map-lookup-insert strip event.job_id id job _ engine.jobs e refl)
]

-- An engine that shows the same projections, with the same journal.
pub record SameView (before after : VisibilityEngine) : Type 0 where
  pub views : (id : String) → visible after id ≡ visible before id
  pub journal : after.events ≡ before.events
  pub seen : after.event_ids ≡ before.event_ids

-- An event whose id was journalled before is answered with EXACT_DUPLICATE, whatever version is
-- expected and whatever else the event says; the journal and every projection but its log of
-- decisions stay as they were.
pub apply_duplicate :
    (engine : VisibilityEngine) (event : Event) (expected_version : Option ℕ)
    → contains event.event_id engine.event_ids ≡ true
    → ((apply engine event expected_version).1 ≡ ok (exact_decision event))
      × SameView engine (apply engine event expected_version).0
unfolding apply
apply_duplicate engine event expected_version seen =
    rw seen
      (refl, record { views = λ id. visible-log engine event id; journal = refl; seen = refl })

abbrev pub AllSeen : VisibilityEngine → List Event → Type 0
AllSeen engine = All (λ event. contains event.event_id engine.event_ids ≡ true)

SameView-trans : {a b c : VisibilityEngine} → SameView a b → SameView b c → SameView a c
SameView-trans p q = record {
  views = λ id. q.views id ∙ p.views id;
  journal = q.journal ∙ p.journal;
  seen = q.seen ∙ p.seen;
}

AllSeen-SameView :
    (a b : VisibilityEngine) (events : List Event)
    → SameView a b
    → AllSeen a events
    → AllSeen b events
AllSeen-SameView a b [] p s = tt
AllSeen-SameView a b (event ∷ rest) p s = (rw p.seen s.0, AllSeen-SameView a b rest p s.1)

-- Redelivering journalled events, in any order and any number of times, changes no projection but
-- its log of decisions, and adds nothing to the journal.
pub apply_all-redelivery :
    (engine : VisibilityEngine) (events : List Event)
    → AllSeen engine events
    → SameView engine (apply_all engine events)
unfolding apply_all
apply_all-redelivery engine [] s = record { views = λ id. refl; journal = refl; seen = refl }
apply_all-redelivery engine (event ∷ rest) s =
    let one = (apply_duplicate engine event none s.0).1 in
    SameView-trans one (
      apply_all-redelivery (apply engine event none).0 rest
        (AllSeen-SameView engine (apply engine event none).0 rest one s.1))

-- The ids that the engine remembers are those of the journal, newest first, each once.
pub record IsJournal (engine : VisibilityEngine) : Type 0 where
  pub distinct : Distinct engine.event_ids
  pub ids : engine.event_ids ≡ reverse (map (λ event. event.event_id) engine.events)

journal-IsJournal :
    (engine : VisibilityEngine) (event : Event)
    → contains event.event_id engine.event_ids ≡ false
    → IsJournal engine
    → IsJournal (journal engine event)
unfolding journal
journal-IsJournal engine event fresh j = record {
  distinct = (fresh, j.distinct);
  ids = simp (map-append, reverse-append) (ap (λ ids. event.event_id ∷ ids) j.ids);
}

store_result-IsJournal :
    (engine : VisibilityEngine) (event : Event)
    (result : Result Error (JobVisibility × ProjectionDecision))
    → IsJournal engine
    → IsJournal (store_result engine event result).0
unfolding store_result
store_result-IsJournal engine event (ok (job, decision)) j = record {
  distinct = j.distinct;
  ids = j.ids;
}
store_result-IsJournal engine event (raised error) j = j

-- Any call of `apply` keeps the journal in step with the remembered ids, each event id once.
pub apply-IsJournal :
    (engine : VisibilityEngine) (event : Event) (expected_version : Option ℕ)
    → IsJournal engine
    → IsJournal (apply engine event expected_version).0
unfolding apply
apply-IsJournal engine event expected_version j =
    elim (Bool-cases (contains event.event_id engine.event_ids)) [
      | inl seen ↦ rw seen (record { distinct = j.distinct; ids = j.ids })
      | inr fresh ↦
          elim (Bool-cases
            (conflicts expected_version (version_of (lookup event.job_id engine.jobs)))) [
              | inl stale ↦ rw (fresh, stale) j
              | inr agrees ↦
                  rw (fresh, agrees)
                    (store_result-IsJournal (journal engine event) event _
                      (journal-IsJournal engine event fresh j))
            ]
    ]
