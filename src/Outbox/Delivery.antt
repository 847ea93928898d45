-- ===== src/Outbox/Delivery.antt =====
-- At-least-once delivery by src/job_visibility/outbox/publisher.py: what is published was acknowledged
-- by the broker.
use mathlib.Core.Path.{subst}
use job_scheduling_simulatio.Prelude.{
  ℕ, ◌/◌, String, ◌≡◌, refl, sym, inl, inr, Bool, true, Option, none, some, List, [], ◌∷◌, ◌++◌,
  map, arith, contains-append, Bool-cases, is_some, nat_key, text_key, length, All, contains,
  All-weaken, Result, ok, raised,
}
use job_scheduling_simulatio.Model.{Time}
use job_scheduling_simulatio.Scheduler.Types.{OutboxRow}
use job_scheduling_simulatio.Outbox.Leases.{
  OutboxRecord, BrokerCoordinate, OutboxPublisher, Transaction, transact, Surroundings, Outbox,
  lease_row, lease, committed, rolled_back, unanswered,
}
use job_scheduling_simulatio.Outbox.Publisher.{
  is_leased_as, published_row, published, failed_row, ceiling, failed_within, failed, send,
  after_send, after_publish, settle_sent, settle, and_then, settle_all, counted, settle_leased,
  run_once,
}
use job_scheduling_simulatio.Outbox.Rows.{update_rows-All}

abbrev pub id_of : OutboxRecord → String
id_of leased = leased.event_id

-- A published row is among the acknowledged records.
abbrev pub IsAcknowledged : List OutboxRecord → OutboxRow → Type 0
IsAcknowledged acknowledged row =
    is_some row.published_at ≡ true → contains row.event.event_id (map id_of acknowledged) ≡ true

abbrev pub AllAcknowledged : Outbox → Type 0
AllAcknowledged outbox = All (IsAcknowledged outbox.acknowledged) outbox.rows

transact-All {ℓ} :
    (P : OutboxRow → Type ℓ) (end : Transaction) (update : List OutboxRow → List OutboxRow)
    (rows : List OutboxRow)
    → All P (update rows)
    → All P rows
    → All P (transact end update rows).0
unfolding transact
transact-All P committed update rows changed h = changed
transact-All P (rolled_back error) update rows changed h = h
transact-All P (unanswered error) update rows changed h = changed

-- What the two changes to a row keep, the settling of a record keeps, whatever is raised in it.
module _ {ℓ} (P : OutboxRow → Type ℓ) (publisher : OutboxPublisher) (around : Surroundings)
    (leased : OutboxRecord)
    (undone : (row : OutboxRow) (error : String) (delay now : Time)
      → P row
      → P (failed_row error delay now row)) where
  failed_within-All :
      (error : String) (bound : Option Time) (rows : List OutboxRow)
      → All P rows
      → All P (failed_within around leased error bound rows).0
  unfolding failed_within
  failed_within-All error none rows h = h
  failed_within-All error (some bound) rows h =
      transact-All P (around.failing leased) _ rows
        (update_rows-All P P (is_leased_as leased)
          (failed_row error (around.uniform leased (bound / 2) bound) (around.clock leased)) rows
          (λ row e k. undone row error _ _ k) (λ row e k. k) h)
        h

  failed-All :
      (error : String) (rows : List OutboxRow)
      → All P rows
      → All P (failed publisher around leased error rows).0
  unfolding failed
  failed-All error rows h = failed_within-All error (ceiling publisher leased) rows h

  after_publish-All :
      (answer : List OutboxRow × Result String (Unit {0}))
      → All P answer.0
      → All P (after_publish publisher around leased answer).0
  unfolding after_publish
  after_publish-All (rows, ok answered) h = h
  after_publish-All (rows, raised error) h = failed-All error rows h

  settle_sent-All :
      (coordinate : BrokerCoordinate) (o : Option String) (rows : List OutboxRow)
      → ((row : OutboxRow) (now : Time)
          → is_leased_as leased row ≡ true
          → P row
          → P (published_row coordinate now row))
      → All P rows
      → All P (settle_sent publisher around leased coordinate o rows).0
  unfolding settle_sent published
  settle_sent-All coordinate none rows done h = after_publish-All _ (
      transact-All P (around.publishing leased) _ rows
        (update_rows-All P P (is_leased_as leased) (published_row coordinate (around.clock leased))
          rows (λ row e k. done row _ e k) (λ row e k. k) h)
        h)
  settle_sent-All coordinate (some error) rows done h = failed-All error rows h

settle-AllAcknowledged :
    (publisher : OutboxPublisher) (around : Surroundings) (leased : OutboxRecord)
    (sent : Result String BrokerCoordinate) (outbox : Outbox)
    → AllAcknowledged outbox
    → AllAcknowledged (settle publisher around leased sent outbox).0
unfolding settle failed_row published_row is_leased_as
settle-AllAcknowledged publisher around leased (raised error) outbox h =
    failed-All (IsAcknowledged outbox.acknowledged) publisher around leased
      (λ row error delay now k. k) error outbox.rows h
settle-AllAcknowledged publisher around leased (ok coordinate) outbox h =
    let more = λ (row : OutboxRow).
      contains-append id_of row.event.event_id outbox.acknowledged (leased ∷ []) in
    settle_sent-All (IsAcknowledged (outbox.acknowledged ++ leased ∷ [])) publisher around leased
      (λ row error delay now k. k) coordinate (after_send around leased coordinate) outbox.rows
      (λ row now held k _. ground (arith, held, more row))
      (All-weaken (IsAcknowledged outbox.acknowledged)
        (IsAcknowledged (outbox.acknowledged ++ leased ∷ [])) outbox.rows
        (λ row k done. ground (arith, k done, more row)) h)

-- What a step and the rest of the loop keep, the two keep, whether the step raises or not.
pub and_then-keeps {ℓ} :
    (P : Outbox → Type ℓ) (step : Outbox × Result String (Unit {0}))
    (next : Outbox → Outbox × Result String (Unit {0}))
    → P step.0
    → ((outbox : Outbox) → P outbox → P (next outbox).0)
    → P (and_then step next).0
and_then-keeps P (outbox, ok done) next h keep = keep outbox h
and_then-keeps P (outbox, raised error) next h keep = h

pub counted-same : (n : ℕ) (r : Outbox × Result String (Unit {0})) → (counted n r).0 ≡ r.0
counted-same n (outbox, ok done) = refl
counted-same n (outbox, raised error) = refl

settle_all-AllAcknowledged :
    (publisher : OutboxPublisher) (around : Surroundings) (records : List OutboxRecord)
    (outbox : Outbox)
    → AllAcknowledged outbox
    → AllAcknowledged (settle_all publisher around records outbox).0
unfolding settle_all
settle_all-AllAcknowledged publisher around [] outbox h = h
settle_all-AllAcknowledged publisher around (leased ∷ rest) outbox h =
    and_then-keeps AllAcknowledged (settle publisher around leased (send around leased) outbox)
      (settle_all publisher around rest)
      (settle-AllAcknowledged publisher around leased (send around leased) outbox h)
      (settle_all-AllAcknowledged publisher around rest)

settle_leased-AllAcknowledged :
    (publisher : OutboxPublisher) (around : Surroundings) (records : List OutboxRecord)
    (leased : Result String (Unit {0})) (outbox : Outbox)
    → AllAcknowledged outbox
    → AllAcknowledged (settle_leased publisher around records leased outbox).0
unfolding settle_leased
settle_leased-AllAcknowledged publisher around records (raised error) outbox h = h
settle_leased-AllAcknowledged publisher around records (ok done) outbox h =
    subst AllAcknowledged (sym (counted-same (length records) _))
      (settle_all-AllAcknowledged publisher around records outbox h)

-- No event is lost between the outbox and the broker: if every published row has been acknowledged, so
-- has it been after a round, whatever faults the round meets, also where it ends in an exception.
pub run_once-AllAcknowledged :
    (publisher : OutboxPublisher) (around : Surroundings) (locked : OutboxRow → Bool)
    (token : String) (now : Time) (outbox : Outbox)
    → AllAcknowledged outbox
    → AllAcknowledged (run_once publisher around locked token now outbox).0
unfolding run_once lease lease_row
run_once-AllAcknowledged publisher around locked token now outbox h =
    elim (Bool-cases publisher.stopping) [
      | inl e ↦ rw e h
      | inr e ↦ rw e (
          settle_leased-AllAcknowledged publisher around _ _ _ (
            transact-All (IsAcknowledged outbox.acknowledged) around.leasing _ outbox.rows
              (update_rows-All (IsAcknowledged outbox.acknowledged)
                (IsAcknowledged outbox.acknowledged) _ _ outbox.rows (λ row held k. k)
                (λ row other k. k) h)
              h))
    ]
