-- ===== src/Outbox/Rounds.antt =====
-- A round of the publisher (src/job_visibility/outbox/publisher.py) keeps the rows of the outbox.
use mathlib.Core.Path.{subst}
use job_scheduling_simulatio.Prelude.{
  String, ◌≡◌, sym, inl, inr, Bool, true, false, Option, none, some, List, [], ◌∷◌, map, arith,
  Distinct, Bool-cases, is_some, nat_key, text_key, length, All, All-weaken, All-zip, Result, ok,
  raised,
}
use job_scheduling_simulatio.Model.{Time}
use job_scheduling_simulatio.Scheduler.Types.{OutboxRow}
use job_scheduling_simulatio.Outbox.Delivery.{and_then-keeps, counted-same}
use job_scheduling_simulatio.Outbox.Leases.{
  OutboxRecord, BrokerCoordinate, OutboxPublisher, Transaction, transact, Surroundings, Outbox,
  update_rows, is_due_row, event_id_of, lease_row, lease, committed, rolled_back, unanswered,
}
use job_scheduling_simulatio.Outbox.Publisher.{
  published_row, published, failed_row, ceiling, failed_within, failed, send, after_send,
  after_publish, settle_sent, settle, settle_all, settle_leased, run_once,
}
use job_scheduling_simulatio.Outbox.Rows.{
  IsValid, Follows, AllFollow, AllFollow-refl, AllFollow-trans, update_rows-All,
  update_rows-AllFollow, due_events-due, KeepsRow, lease_row-KeepsRow, published_row-KeepsRow,
  failed_row-KeepsRow,
}

-- Every row is valid after a step, and follows the row that it was.
pub record KeepsRows (before : List OutboxRow) (after : List OutboxRow) : Type 0 where
  pub valid : All IsValid after
  pub follow : AllFollow before after

-- An update keeps the rows if it keeps each row that it changes.
update_rows-KeepsRows :
    (test : OutboxRow → Bool) (assign : OutboxRow → OutboxRow) (rows : List OutboxRow)
    → All (λ row. test row ≡ true → KeepsRow row (assign row)) rows
    → All IsValid rows
    → KeepsRows rows (update_rows test assign rows)
update_rows-KeepsRows test assign rows keep h = record {
  valid =
      update_rows-All (λ row. IsValid row × (test row ≡ true → KeepsRow row (assign row))) IsValid
        test assign rows (λ row e k. (k.1 e).0) (λ row e k. k.0)
        (All-zip IsValid (λ row. test row ≡ true → KeepsRow row (assign row)) rows h keep);
  follow = update_rows-AllFollow test assign rows (
      All-weaken (λ row. test row ≡ true → KeepsRow row (assign row))
        (λ row. test row ≡ true → Follows row (assign row)) rows (λ row k e. (k e).1) keep);
}

is_due_row-free :
    (locked : OutboxRow → Bool) (now : Time) (row : OutboxRow)
    → is_due_row locked now row ≡ true
    → is_some row.published_at ≡ false
is_due_row-free locked now row due = ground (arith, due)

lease-KeepsRows :
    (publisher : OutboxPublisher) (around : Surroundings) (locked : OutboxRow → Bool)
    (token : String) (now : Time) (rows : List OutboxRow)
    → Distinct (map event_id_of rows)
    → All IsValid rows
    → KeepsRows rows (lease publisher around locked token now rows).0
unfolding lease
lease-KeepsRows publisher around locked token now rows distinct valid =
    update_rows-KeepsRows _ (lease_row publisher token now) rows
      (All-weaken _ _ rows
        (λ row both found.
          lease_row-KeepsRow publisher token now row (is_due_row-free locked now row (both.1 found))
            both.0)
        (All-zip IsValid _ rows valid
          (due_events-due locked now publisher.batch_size rows distinct)))
      valid

published-KeepsRows :
    (leased : OutboxRecord) (coordinate : BrokerCoordinate) (now : Time) (rows : List OutboxRow)
    → All IsValid rows
    → KeepsRows rows (published leased coordinate now rows)
unfolding published
published-KeepsRows leased coordinate now rows valid =
    update_rows-KeepsRows _ (published_row coordinate now) rows
      (All-weaken IsValid _ rows
        (λ row v held. published_row-KeepsRow leased coordinate now row held v) valid)
      valid

KeepsRows-trans : (xs ys zs : List OutboxRow) → KeepsRows xs ys → KeepsRows ys zs → KeepsRows xs zs
KeepsRows-trans xs ys zs p q = record {
  valid = q.valid;
  follow = AllFollow-trans xs ys zs p.follow q.follow;
}

KeepsRows-refl : (rows : List OutboxRow) → All IsValid rows → KeepsRows rows rows
KeepsRows-refl rows valid = record { valid = valid; follow = AllFollow-refl rows }

-- A transaction keeps the rows if its update does, however it ends.
transact-KeepsRows :
    (end : Transaction) (update : List OutboxRow → List OutboxRow) (rows : List OutboxRow)
    → All IsValid rows
    → KeepsRows rows (update rows)
    → KeepsRows rows (transact end update rows).0
unfolding transact
transact-KeepsRows committed update rows valid keep = keep
transact-KeepsRows (rolled_back error) update rows valid keep = KeepsRows-refl rows valid
transact-KeepsRows (unanswered error) update rows valid keep = keep

module _ (publisher : OutboxPublisher) (around : Surroundings) (leased : OutboxRecord) where
  failed_within-KeepsRows :
      (error : String) (bound : Option Time) (rows : List OutboxRow)
      → All IsValid rows
      → KeepsRows rows (failed_within around leased error bound rows).0
  unfolding failed_within
  failed_within-KeepsRows error none rows valid = KeepsRows-refl rows valid
  failed_within-KeepsRows error (some bound) rows valid =
      transact-KeepsRows (around.failing leased) _ rows valid (
        update_rows-KeepsRows _ (failed_row error _ (around.clock leased)) rows
          (All-weaken IsValid _ rows
            (λ row v held. failed_row-KeepsRow leased error _ (around.clock leased) row held v)
            valid)
          valid)

  failed-KeepsRows :
      (error : String) (rows : List OutboxRow)
      → All IsValid rows
      → KeepsRows rows (failed publisher around leased error rows).0
  unfolding failed
  failed-KeepsRows error rows valid =
      failed_within-KeepsRows error (ceiling publisher leased) rows valid

  after_publish-KeepsRows :
      (rows : List OutboxRow) (answer : List OutboxRow × Result String (Unit {0}))
      → KeepsRows rows answer.0
      → KeepsRows rows (after_publish publisher around leased answer).0
  unfolding after_publish
  after_publish-KeepsRows rows (next, ok answered) keep = keep
  after_publish-KeepsRows rows (next, raised error) keep =
      KeepsRows-trans rows next _ keep (failed-KeepsRows error next keep.valid)

  settle_sent-KeepsRows :
      (coordinate : BrokerCoordinate) (o : Option String) (rows : List OutboxRow)
      → All IsValid rows
      → KeepsRows rows (settle_sent publisher around leased coordinate o rows).0
  unfolding settle_sent
  settle_sent-KeepsRows coordinate none rows valid = after_publish-KeepsRows rows _ (
      transact-KeepsRows (around.publishing leased) _ rows valid
        (published-KeepsRows leased coordinate (around.clock leased) rows valid))
  settle_sent-KeepsRows coordinate (some error) rows valid = failed-KeepsRows error rows valid

  settle-KeepsRows :
      (sent : Result String BrokerCoordinate) (outbox : Outbox)
      → All IsValid outbox.rows
      → KeepsRows outbox.rows (settle publisher around leased sent outbox).0.rows
  unfolding settle
  settle-KeepsRows (raised error) outbox valid = failed-KeepsRows error outbox.rows valid
  settle-KeepsRows (ok coordinate) outbox valid =
      settle_sent-KeepsRows coordinate (after_send around leased coordinate) outbox.rows valid

settle_all-KeepsRows :
    (publisher : OutboxPublisher) (around : Surroundings) (records : List OutboxRecord)
    (outbox : Outbox)
    → All IsValid outbox.rows
    → KeepsRows outbox.rows (settle_all publisher around records outbox).0.rows
unfolding settle_all
settle_all-KeepsRows publisher around [] outbox valid = KeepsRows-refl outbox.rows valid
settle_all-KeepsRows publisher around (leased ∷ rest) outbox valid =
    and_then-keeps (λ (o : Outbox). KeepsRows outbox.rows o.rows)
      (settle publisher around leased (send around leased) outbox)
      (settle_all publisher around rest)
      (settle-KeepsRows publisher around leased (send around leased) outbox valid)
      (λ o keep.
        KeepsRows-trans outbox.rows o.rows _ keep
          (settle_all-KeepsRows publisher around rest o keep.valid))

settle_leased-KeepsRows :
    (publisher : OutboxPublisher) (around : Surroundings) (records : List OutboxRecord)
    (leased : Result String (Unit {0})) (outbox : Outbox)
    → All IsValid outbox.rows
    → KeepsRows outbox.rows (settle_leased publisher around records leased outbox).0.rows
unfolding settle_leased
settle_leased-KeepsRows publisher around records (raised error) outbox valid =
    KeepsRows-refl outbox.rows valid
settle_leased-KeepsRows publisher around records (ok done) outbox valid =
    subst (λ (o : Outbox). KeepsRows outbox.rows o.rows) (sym (counted-same (length records) _))
      (settle_all-KeepsRows publisher around records outbox valid)

-- A round of the publisher, whatever the broker, the database and the fault injector do, keeps
-- every row valid; it changes no message, takes no attempt back, and leaves a published row as it is.
pub run_once-KeepsRows :
    (publisher : OutboxPublisher) (around : Surroundings) (locked : OutboxRow → Bool)
    (token : String) (now : Time) (outbox : Outbox)
    → Distinct (map event_id_of outbox.rows)
    → All IsValid outbox.rows
    → KeepsRows outbox.rows (run_once publisher around locked token now outbox).0.rows
unfolding run_once
run_once-KeepsRows publisher around locked token now outbox distinct valid =
    elim (Bool-cases publisher.stopping) [
      | inl e ↦ rw e (KeepsRows-refl outbox.rows valid)
      | inr e ↦
          let step =
            transact-KeepsRows around.leasing
              (λ _. (lease publisher around locked token now outbox.rows).0) outbox.rows valid
              (lease-KeepsRows publisher around locked token now outbox.rows distinct valid) in
          rw e (
            KeepsRows-trans outbox.rows _ _ step
              (settle_leased-KeepsRows publisher around _ _ _ step.valid))
    ]
