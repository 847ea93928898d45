-- ===== src/Chaos/Counts.antt =====
-- An experiment of src/job_visibility/chaos/injector.py is finite and leaves others alone.
use job_scheduling_simulatio.Prelude.{
  ℕ, suc, ◌+◌, ◌≤◌, ◌≡◌, refl, inl, inr, false, not, ◌||◌, none, List, [], ◌∷◌, arith, ltb, leb,
  if◌then◌else◌, nat_eq_iff, Bool-cases, is_some, ◌==◌, nat_key, text_key, length, All,
}
use job_scheduling_simulatio.Scheduler.Types.{Checkpoint}
use job_scheduling_simulatio.Chaos.Rules.{FaultAction, FaultRule, delay, raise_error, exit, pause}
use job_scheduling_simulatio.Chaos.Injector.{
  FaultContext, ConfiguredFaultInjector, matches, Injection, act, inject_rules, inject, inject_all,
}

-- How often a call has acted: its effects, and the fault that it raised.
abbrev pub actions : Injection → ℕ
actions done = length done.effects + (if is_some done.fault then 1 else 0)

-- The rules that have not reached the call on which they act.
abbrev pub armed : List FaultRule → List ℕ → ℕ
armed [] counts = 0
armed (rule ∷ rules) [] = 0
armed (rule ∷ rules) (n ∷ counts) = (if ltb n rule.activate_on then 1 else 0) + armed rules counts

armed-length : (rules : List FaultRule) (counts : List ℕ) → armed rules counts ≤ length rules
armed-length [] counts = omega arith
armed-length (rule ∷ rules) [] = omega arith
armed-length (rule ∷ rules) (n ∷ counts) = ground (arith, armed-length rules counts)

act-actions :
    (action : FaultAction) (rule : FaultRule) (index : ℕ) (checkpoint : Checkpoint) (n : ℕ)
    (rules : List FaultRule) (counts : List ℕ) (rest : Injection)
    → suc n ≡ rule.activate_on
    → actions rest + armed rules rest.counts ≤ armed rules counts
    → actions (act action rule index checkpoint (suc n) counts rest)
        + armed (rule ∷ rules) (act action rule index checkpoint (suc n) counts rest).counts
      ≤ armed (rule ∷ rules) (n ∷ counts)
unfolding act
act-actions raise_error rule index checkpoint n rules counts rest e h = ground (arith, e, h)
act-actions delay rule index checkpoint n rules counts rest e h = ground (arith, e, h)
act-actions exit rule index checkpoint n rules counts rest e h = ground (arith, e, h)
act-actions pause rule index checkpoint n rules counts rest e h = ground (arith, e, h)

-- Each action uses up a rule.
inject_rules-actions :
    (index : ℕ) (rules : List FaultRule) (counts : List ℕ) (checkpoint : Checkpoint)
    (context : FaultContext)
    → actions (inject_rules index rules counts checkpoint context)
        + armed rules (inject_rules index rules counts checkpoint context).counts
      ≤ armed rules counts
unfolding inject_rules
inject_rules-actions index [] counts checkpoint context = omega arith
inject_rules-actions index (rule ∷ rules) [] checkpoint context = omega arith
inject_rules-actions index (rule ∷ rules) (n ∷ counts) checkpoint context =
    let rest = inject_rules (suc index) rules counts checkpoint context in
    let h = inject_rules-actions (suc index) rules counts checkpoint context in
    elim (Bool-cases (not (matches rule checkpoint context) || leb rule.invocations n)) [
      | inl e ↦ rw e (ground (arith, h))
      | inr e ↦ elim (Bool-cases (suc n == rule.activate_on)) [
        | inl last ↦
            rw (e, last)
              (act-actions rule.action rule index checkpoint n rules counts rest
                ((nat_eq_iff (suc n) rule.activate_on).0 last) h)
        | inr early ↦ rw (e, early) (ground (arith, h))
      ]
    ]

abbrev pub total : List Injection → ℕ
total [] = 0
total (done ∷ rest) = actions done + total rest

inject_all-armed :
    (injector : ConfiguredFaultInjector) (calls : List (Checkpoint × FaultContext))
    → total (inject_all injector calls).1 ≤ armed injector.rules injector.counts
unfolding inject_all inject
inject_all-armed injector [] = omega arith
inject_all-armed injector ((checkpoint, context) ∷ calls) = omega (
  arith,
  inject_rules-actions 0 injector.rules injector.counts checkpoint context,
  inject_all-armed (inject injector checkpoint context).0 calls,
)

-- However many calls are made, at whatever checkpoints, an injector acts at most once for each of its
-- rules: raised faults, delays, exits and pauses together are no more than the rules.
pub inject_all-total :
    (injector : ConfiguredFaultInjector) (calls : List (Checkpoint × FaultContext))
    → total (inject_all injector calls).1 ≤ length injector.rules
inject_all-total injector calls =
    omega (arith, inject_all-armed injector calls, armed-length injector.rules injector.counts)

-- No rule has been met more often than it says.
abbrev pub Within : List FaultRule → List ℕ → Type 0
Within [] [] = Unit
Within [] (n ∷ counts) = ⊥
Within (rule ∷ rules) [] = ⊥
Within (rule ∷ rules) (n ∷ counts) = (n ≤ rule.invocations) × Within rules counts

act-counts :
    (action : FaultAction) (rule : FaultRule) (index : ℕ) (checkpoint : Checkpoint) (n : ℕ)
    (rules : List FaultRule) (counts : List ℕ) (rest : Injection)
    → n ≤ rule.invocations
    → Within rules counts
    → Within rules rest.counts
    → Within (rule ∷ rules) (act action rule index checkpoint n counts rest).counts
unfolding act
act-counts raise_error rule index checkpoint n rules counts rest h old new = (h, old)
act-counts delay rule index checkpoint n rules counts rest h old new = (h, new)
act-counts exit rule index checkpoint n rules counts rest h old new = (h, new)
act-counts pause rule index checkpoint n rules counts rest h old new = (h, new)

inject_rules-Within :
    (index : ℕ) (rules : List FaultRule) (counts : List ℕ) (checkpoint : Checkpoint)
    (context : FaultContext)
    → Within rules counts
    → Within rules (inject_rules index rules counts checkpoint context).counts
unfolding inject_rules
inject_rules-Within index [] counts checkpoint context h = h
inject_rules-Within index (rule ∷ rules) [] checkpoint context h = elim h [ ]
inject_rules-Within index (rule ∷ rules) (n ∷ counts) checkpoint context h =
    let rest = inject_rules (suc index) rules counts checkpoint context in
    let later = inject_rules-Within (suc index) rules counts checkpoint context h.1 in
    elim (Bool-cases (not (matches rule checkpoint context) || leb rule.invocations n)) [
      | inl e ↦ rw e (h.0, later)
      | inr e ↦
          let more : suc n ≤ rule.invocations = ground (arith, e) in
          elim (Bool-cases (suc n == rule.activate_on)) [
            | inl last ↦
                rw (e, last)
                  (act-counts rule.action rule index checkpoint (suc n) rules counts rest more h.1
                    later)
            | inr early ↦ rw (e, early) (more, later)
          ]
    ]

-- Every call keeps the count of each rule within its invocations.
pub inject-Within :
    (injector : ConfiguredFaultInjector) (checkpoint : Checkpoint) (context : FaultContext)
    → Within injector.rules injector.counts
    → Within
        (inject injector checkpoint context).0.rules
        (inject injector checkpoint context).0.counts
unfolding inject
inject-Within injector checkpoint context h =
    inject_rules-Within 0 injector.rules injector.counts checkpoint context h

inject_rules-unmatched :
    (index : ℕ) (rules : List FaultRule) (counts : List ℕ) (checkpoint : Checkpoint)
    (context : FaultContext)
    → Within rules counts
    → All (λ rule. matches rule checkpoint context ≡ false) rules
    → inject_rules index rules counts checkpoint context
      ≡ record { counts = counts; effects = []; fault = none }
unfolding inject_rules
inject_rules-unmatched index [] counts checkpoint context w h = refl
inject_rules-unmatched index (rule ∷ rules) [] checkpoint context w h = elim w [ ]
inject_rules-unmatched index (rule ∷ rules) (n ∷ counts) checkpoint context w h =
    rw (h.0, inject_rules-unmatched (suc index) rules counts checkpoint context w.1 h.1)

-- A call that no rule matches, by its checkpoint, job or correlation id, does nothing and leaves the
-- injector as it is.
pub inject_unmatched :
    (injector : ConfiguredFaultInjector) (checkpoint : Checkpoint) (context : FaultContext)
    → Within injector.rules injector.counts
    → All (λ rule. matches rule checkpoint context ≡ false) injector.rules
    → inject injector checkpoint context
      ≡ (injector, record { counts = injector.counts; effects = []; fault = none })
unfolding inject
inject_unmatched injector checkpoint context w h =
    rw (inject_rules-unmatched 0 injector.rules injector.counts checkpoint context w h)
