-- ===== src/Outbox/Tests.antt =====
-- Concrete rounds of the publisher (src/job_visibility/outbox/publisher.py).
use mathlib.Core.List.Perm
use job_scheduling_simulatio.Prelude.{
  ℕ, ◌+◌, ◌/◌, String, ◌≡◌, refl, Bool, true, false, none, [], ◌∷◌, map, arith, sort, if◌then◌else◌,
  is_some, ◌==◌, nat_key, text_key, All, Result, ok, raised,
}
use job_scheduling_simulatio.Model.{Time, seconds, make_event, job_created}
use job_scheduling_simulatio.Scheduler.Tables.{outbox_row}
use job_scheduling_simulatio.Scheduler.Types.{OutboxRow}
use job_scheduling_simulatio.Outbox.Settles.{run_once-settles}
use job_scheduling_simulatio.Outbox.Delivery.{AllAcknowledged, run_once-AllAcknowledged}
use job_scheduling_simulatio.Outbox.Rounds.{KeepsRows, run_once-KeepsRows}
use job_scheduling_simulatio.Outbox.Leases.{
  OutboxPublisher, Surroundings, Outbox, committed, rolled_back,
}
use job_scheduling_simulatio.Outbox.Publisher.{is_token, run_once}

abbrev publisher : OutboxPublisher
publisher = record {
  owner = "publisher-1";
  batch_size = 2;
  lease_seconds = 30;
  retry_initial = seconds 1;
  float_retry = true;
  retry_max = seconds 60;
  stopping = false;
}

abbrev row_of : String → Time → OutboxRow
row_of id at = outbox_row "edr" at (make_event id job_created at at "job-1")

-- Three rows that are due at time 50; the batch has two.
abbrev outbox : Outbox
outbox = record { rows = row_of "e1" 10 ∷ row_of "e2" 20 ∷ row_of "e3" 30 ∷ []; acknowledged = [] }

-- The broker refuses the second event.
abbrev around : Surroundings
around = record {
  fault = λ _ _. none;
  publish = λ leased.
      if leased.event_id == "e2"
      then raised "TimeoutError"
      else ok (record { partition = 0; offset = 7 });
  after_ack = λ _ _. none;
  uniform = λ _ low high. low;
  clock = λ _. 60;
  leasing = committed;
  publishing = λ _. committed;
  failing = λ _. committed;
  returned = λ rows. rows;
}

abbrev after_round : Outbox
after_round = (run_once publisher around (λ _. false) "token-1" 50 outbox).0

round_is_mixed :
    map {B = Bool × ℕ × Time}
      (λ row. (is_some row.published_at, row.publish_attempts, row.next_attempt_at))
      after_round.rows
    ≡ (true, 0, 10) ∷ (false, 1, 60 + seconds 1 / 2) ∷ (false, 0, 30) ∷ []
unfolding run_once sort outbox_row
round_is_mixed = refl

run_once-KeepsRows_example : KeepsRows outbox.rows after_round.rows
unfolding outbox_row
run_once-KeepsRows_example =
    run_once-KeepsRows publisher around (λ _. false) "token-1" 50 outbox (refl, (refl, (refl, tt)))
      (
        (refl, refl, refl, refl, refl),
        ((refl, refl, refl, refl, refl), ((refl, refl, refl, refl, refl), tt)),
      )

run_once-AllAcknowledged_example : AllAcknowledged after_round
unfolding outbox_row
run_once-AllAcknowledged_example =
    run_once-AllAcknowledged publisher around (λ _. false) "token-1" 50 outbox
      (
        λ done. ground (arith, done),
        (λ done. ground (arith, done), (λ done. ground (arith, done), tt)),
      )

run_once-settles_example :
    ((n : ℕ) × ((run_once publisher around (λ _. false) "token-1" 50 outbox).1 ≡ ok n))
    × All (λ row. is_token row.lease_token "token-1" ≡ false) after_round.rows
unfolding outbox_row
run_once-settles_example =
    run_once-settles publisher around (λ _. false) "token-1" 50 outbox (λ xs. Perm.refl xs) refl
      (λ leased. refl) (λ float. omega arith, (λ float. omega arith, (λ float. omega arith, tt)))
      (refl, (refl, (refl, tt)))

-- A failure that cannot be written ends the round, with its record leased and the next one as well.
abbrev failing_database : Surroundings
failing_database = record around {
  publish = λ _. raised "TimeoutError";
  failing = λ _. rolled_back "OperationalError";
}

abbrev cut_round : Outbox × Result String ℕ
cut_round = run_once publisher failing_database (λ _. false) "token-1" 50 outbox

round_is_cut_short :
    (cut_round.1 ≡ raised "OperationalError")
    × (map (λ row. is_token row.lease_token "token-1") cut_round.0.rows ≡ true ∷ true ∷ false ∷ [])
unfolding run_once sort outbox_row
round_is_cut_short = (refl, refl)
