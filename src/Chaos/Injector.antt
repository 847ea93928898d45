-- ===== src/Chaos/Injector.antt =====
-- `ConfiguredFaultInjector` of src/job_visibility/chaos/injector.py. What it does beside raising is a
-- list of effects; `exits` ends the process, unless a caller gives another `terminate`.
use Prim.Native.String.{count as text_length}
use job_scheduling_simulatio.Prelude.{
  ℕ, suc, String, Bool, true, false, not, ◌&&◌, ◌||◌, Option, none, some, List, [], ◌∷◌, ltb, leb,
  if◌then◌else◌, ◌==◌, nat_key, text_key, Result, ok, raised,
}
use job_scheduling_simulatio.Model.{Time, Error, value_error}
use job_scheduling_simulatio.Scheduler.Types.{
  Checkpoint, scheduler_before_commit, scheduler_after_commit, worker_after_claim,
  worker_before_complete, publisher_before_send, publisher_after_broker_ack, projector_before_apply,
  projector_after_apply, visibility_before_query,
}
use job_scheduling_simulatio.Chaos.Rules.{FaultAction, FaultRule, delay, raise_error, exit, pause}

pub record SyntheticFault : Type 0 where
  pub error_code : String
  pub checkpoint : Checkpoint

pub record FaultContext : Type 0 where
  pub job_id : Option String
  pub correlation_id : Option String
  pub event_id : Option String

pub data Effect : Type 0 where
  waits : Time → Effect
  exits : ℕ → Effect
  pauses : ℕ → Time → Effect

-- The rules, and how often each was met.
pub record ConfiguredFaultInjector : Type 0 where
  pub experiment_id : String
  pub rules : List FaultRule
  pub counts : List ℕ

unfoldable pub zeros : List FaultRule → List ℕ
zeros [] = []
zeros (rule ∷ rules) = 0 ∷ zeros rules

-- `ConfiguredFaultInjector.__init__`.
unfoldable pub new_injector : String → List FaultRule → Result Error ConfiguredFaultInjector
unfolding zeros
new_injector experiment_id rules =
    if experiment_id == "" || ltb 100 (text_length experiment_id)
    then raised value_error
    else ok (record { experiment_id = experiment_id; rules = rules; counts = zeros rules })

-- The place of a checkpoint in its enumeration.
abbrev checkpoint_code : Checkpoint → ℕ
checkpoint_code scheduler_before_commit = 0
checkpoint_code scheduler_after_commit = 1
checkpoint_code worker_after_claim = 2
checkpoint_code worker_before_complete = 3
checkpoint_code publisher_before_send = 4
checkpoint_code publisher_after_broker_ack = 5
checkpoint_code projector_before_apply = 6
checkpoint_code projector_after_apply = 7
checkpoint_code visibility_before_query = 8

-- `selector is None or selector == identity`.
abbrev selects : Option String → Option String → Bool
selects none identity = true
selects (some selector) none = false
selects (some selector) (some identity) = selector == identity

-- `_matches`.
unfoldable pub matches : FaultRule → Checkpoint → FaultContext → Bool
matches rule checkpoint context =
    checkpoint_code rule.checkpoint == checkpoint_code checkpoint
    && selects rule.job_id context.job_id
    && selects rule.correlation_id context.correlation_id

-- What a call leaves: the counts, the effects in their order, and the fault if one was raised.
pub record Injection : Type 0 where
  pub counts : List ℕ
  pub effects : List Effect
  pub fault : Option SyntheticFault

-- The action of a rule that is activated, before the rest of the loop.
unfoldable pub act : FaultAction → FaultRule → ℕ → Checkpoint → ℕ → List ℕ → Injection → Injection
act raise_error rule index checkpoint n counts rest = record {
  counts = n ∷ counts;
  effects = [];
  fault = some (record { error_code = rule.error_code; checkpoint = checkpoint });
}
act delay rule index checkpoint n counts rest = record rest {
  counts = n ∷ rest.counts;
  effects = waits rule.delay_seconds ∷ rest.effects;
}
act exit rule index checkpoint n counts rest = record rest {
  counts = n ∷ rest.counts;
  effects = exits rule.exit_code ∷ rest.effects;
}
act pause rule index checkpoint n counts rest = record rest {
  counts = n ∷ rest.counts;
  effects = pauses index rule.pause_timeout_seconds ∷ rest.effects;
}

-- The loop of `inject` from the rule of the index on.
unfoldable pub inject_rules : ℕ → List FaultRule → List ℕ → Checkpoint → FaultContext → Injection
unfolding matches act
inject_rules index [] counts checkpoint context = record {
  counts = counts;
  effects = [];
  fault = none;
}
inject_rules index (rule ∷ rules) [] checkpoint context = record {
  counts = [];
  effects = [];
  fault = none;
}
inject_rules index (rule ∷ rules) (n ∷ counts) checkpoint context =
    let rest = inject_rules (suc index) rules counts checkpoint context in
    if not (matches rule checkpoint context) || leb rule.invocations n
    then record rest { counts = n ∷ rest.counts }
    else if not (suc n == rule.activate_on)
    then record rest { counts = suc n ∷ rest.counts }
    else act rule.action rule index checkpoint (suc n) counts rest

-- `inject`: the injector after a call, and what the call did.
unfoldable pub inject :
    ConfiguredFaultInjector → Checkpoint → FaultContext → ConfiguredFaultInjector × Injection
unfolding inject_rules
inject injector checkpoint context =
    let done = inject_rules 0 injector.rules injector.counts checkpoint context in
    (record injector { counts = done.counts }, done)

-- Calls one after another: the injector after them, and what each did.
unfoldable pub inject_all :
    ConfiguredFaultInjector
    → List (Checkpoint × FaultContext)
    → ConfiguredFaultInjector × List Injection
unfolding inject
inject_all injector [] = (injector, [])
inject_all injector ((checkpoint, context) ∷ calls) =
    let (next, done) = inject injector checkpoint context in
    let (last, rest) = inject_all next calls in (last, done ∷ rest)
