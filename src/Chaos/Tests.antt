-- ===== src/Chaos/Tests.antt =====
-- Concrete experiments of src/job_visibility/chaos.
use job_scheduling_simulatio.Prelude.{
  ◌≤◌, String, ◌≡◌, refl, true, false, none, some, List, [], ◌∷◌, map, arith, is_some, ok,
}
use job_scheduling_simulatio.Model.{seconds}
use job_scheduling_simulatio.Scheduler.Types.{Checkpoint, worker_after_claim}
use job_scheduling_simulatio.Chaos.Rules.{FaultRule, check_rule, raise_error}
use job_scheduling_simulatio.Chaos.Counts.{total, inject_all-total, inject_unmatched}
use job_scheduling_simulatio.Chaos.Injector.{
  FaultContext, ConfiguredFaultInjector, matches, inject, inject_all,
}

-- It raises on its second call of two.
abbrev rule : FaultRule
rule = record {
  checkpoint = worker_after_claim;
  action = raise_error;
  invocations = 2;
  activate_on = 2;
  delay_seconds = 0;
  job_id = some "job-1";
  correlation_id = none;
  error_code = "CHAOS_INJECTED";
  exit_code = 86;
  pause_timeout_seconds = seconds 10;
}

abbrev injector : ConfiguredFaultInjector
injector = record { experiment_id = "exp-1"; rules = rule ∷ []; counts = 0 ∷ [] }

abbrev context_of : String → FaultContext
context_of id = record { job_id = some id; correlation_id = none; event_id = none }

abbrev calls : List (Checkpoint × FaultContext)
calls =
    (worker_after_claim, context_of "job-1")
    ∷ (worker_after_claim, context_of "job-2")
    ∷ (worker_after_claim, context_of "job-1")
    ∷ (worker_after_claim, context_of "job-1")
    ∷ []

rule_is_valid : check_rule rule ≡ ok rule
unfolding check_rule
rule_is_valid = refl

second_call_raises :
    map (λ done. is_some done.fault) (inject_all injector calls).1
    ≡ false ∷ false ∷ true ∷ false ∷ []
unfolding inject_all
second_call_raises = refl

inject_all-total_example : total (inject_all injector calls).1 ≤ 1
inject_all-total_example = inject_all-total injector calls

inject_unmatched_example :
    inject injector worker_after_claim (context_of "job-2")
    ≡ (injector, record { counts = 0 ∷ []; effects = []; fault = none })
unfolding matches
inject_unmatched_example =
    inject_unmatched injector worker_after_claim (context_of "job-2") (ground arith, tt) (refl, tt)
