-- ===== src/Outbox/Settling.antt =====
-- The loop of a round of src/job_visibility/outbox/publisher.py settles the records that are left.
use job_scheduling_simulatio.Prelude.{
  ◌/◌, String, ◌≡◌, refl, true, false, Option, none, some, List, [], ◌∷◌, map, arith, nat_key,
  text_key, All, contains, All-weaken, Result, ok, raised,
}
use job_scheduling_simulatio.Model.{Time}
use job_scheduling_simulatio.Scheduler.Types.{OutboxRow}
use job_scheduling_simulatio.Outbox.Delivery.{id_of}
use job_scheduling_simulatio.Outbox.Leases.{
  OutboxRecord, BrokerCoordinate, OutboxPublisher, Transaction, transact, Surroundings, Outbox,
  committed, rolled_back, unanswered,
}
use job_scheduling_simulatio.Outbox.Publisher.{
  is_token, is_leased_as, published_row, published, failed_row, ceiling, failed_within, failed,
  send, after_send, after_publish, settle_sent, settle, and_then, settle_all,
}
use job_scheduling_simulatio.Outbox.Rows.{update_rows-All}

-- A row that is leased under the token has its record among those that are left.
abbrev pub IsLeft : String → List OutboxRecord → OutboxRow → Type 0
IsLeft token records row =
    is_token row.lease_token token ≡ true → contains row.event.event_id (map id_of records) ≡ true

-- A row of the token that is not the one of the record has its own among the rest.
other-IsLeft :
    (token : String) (leased : OutboxRecord) (rest : List OutboxRecord) (row : OutboxRow)
    → leased.lease_token ≡ token
    → is_leased_as leased row ≡ false
    → IsLeft token (leased ∷ rest) row
    → IsLeft token rest row
unfolding is_leased_as
other-IsLeft token leased rest row same other left held =
    ground (arith, rw same at other, left held, held)

pub more-IsLeft :
    (token : String) (leased : OutboxRecord) (rest : List OutboxRecord) (rows : List OutboxRow)
    → All (IsLeft token rest) rows
    → All (IsLeft token (leased ∷ rest)) rows
more-IsLeft token leased rest rows h =
    All-weaken (IsLeft token rest) (IsLeft token (leased ∷ rest)) rows
      (λ row left held. ground (arith, left held)) h

-- The record of a failure has a bound on its wait.
abbrev pub HasBound : OutboxPublisher → OutboxRecord → Type 0
HasBound publisher leased = (bound : Time) × (ceiling publisher leased ≡ some bound)

-- A step that has raised nothing, and left no row of the token but those of the rest.
abbrev pub Settled : String → List OutboxRecord → List OutboxRow × Result String (Unit {0}) → Type 0
Settled token rest answer = (answer.1 ≡ ok tt) × All (IsLeft token rest) answer.0

module _ (publisher : OutboxPublisher) (around : Surroundings) (token : String)
    (answered : (leased : OutboxRecord) → around.failing leased ≡ committed) where
  module _ (leased : OutboxRecord) (rest : List OutboxRecord) (same : leased.lease_token ≡ token)
      (bounded : HasBound publisher leased) where
    failed-Settled :
        (error : String) (rows : List OutboxRow)
        → All (IsLeft token (leased ∷ rest)) rows
        → Settled token rest (failed publisher around leased error rows)
    unfolding failed failed_within transact failed_row
    failed-Settled error rows h =
        rw (bounded.1, answered leased)
          (
            refl,
            update_rows-All (IsLeft token (leased ∷ rest)) (IsLeft token rest) (is_leased_as leased)
                (failed_row error (around.uniform leased (bounded.0 / 2) bounded.0)
                  (around.clock leased))
                rows (λ row e left held. ground (arith, held))
                (λ row e left. other-IsLeft token leased rest row same e left) h,
          )

    published-IsLeft :
        (coordinate : BrokerCoordinate) (now : Time) (rows : List OutboxRow)
        → All (IsLeft token (leased ∷ rest)) rows
        → All (IsLeft token rest) (published leased coordinate now rows)
    unfolding published published_row
    published-IsLeft coordinate now rows h =
        update_rows-All (IsLeft token (leased ∷ rest)) (IsLeft token rest) (is_leased_as leased)
          (published_row coordinate now) rows (λ row e left held. ground (arith, held))
          (λ row e left. other-IsLeft token leased rest row same e left) h

    after_publish-Settled :
        (end : Transaction) (coordinate : BrokerCoordinate) (now : Time) (rows : List OutboxRow)
        → All (IsLeft token (leased ∷ rest)) rows
        → Settled token rest (
            after_publish publisher around leased
              (transact end (published leased coordinate now) rows))
    unfolding after_publish transact
    after_publish-Settled committed coordinate now rows h =
        (refl, published-IsLeft coordinate now rows h)
    after_publish-Settled (rolled_back error) coordinate now rows h = failed-Settled error rows h
    after_publish-Settled (unanswered error) coordinate now rows h =
        failed-Settled error _
          (more-IsLeft token leased rest _ (published-IsLeft coordinate now rows h))

    settle_sent-Settled :
        (coordinate : BrokerCoordinate) (o : Option String) (rows : List OutboxRow)
        → All (IsLeft token (leased ∷ rest)) rows
        → Settled token rest (settle_sent publisher around leased coordinate o rows)
    unfolding settle_sent
    settle_sent-Settled coordinate none rows h =
        after_publish-Settled (around.publishing leased) coordinate (around.clock leased) rows h
    settle_sent-Settled coordinate (some error) rows h = failed-Settled error rows h

    settle-Settled :
        (sent : Result String BrokerCoordinate) (outbox : Outbox)
        → All (IsLeft token (leased ∷ rest)) outbox.rows
        → ((settle publisher around leased sent outbox).1 ≡ ok tt)
          × All (IsLeft token rest) (settle publisher around leased sent outbox).0.rows
    unfolding settle
    settle-Settled (raised error) outbox h = failed-Settled error outbox.rows h
    settle-Settled (ok coordinate) outbox h =
        settle_sent-Settled coordinate (after_send around leased coordinate) outbox.rows h

  -- After a step that has raised nothing the loop goes on.
  and_then-Settled :
      (step : Outbox × Result String (Unit {0})) (next : Outbox → Outbox × Result String (Unit {0}))
      → step.1 ≡ ok tt
      → Settled token [] ((next step.0).0.rows, (next step.0).1)
      → Settled token [] ((and_then step next).0.rows, (and_then step next).1)
  and_then-Settled (outbox, ok done) next e h = h
  and_then-Settled (outbox, raised error) next e h = cc

  pub settle_all-Settled :
      (records : List OutboxRecord) (outbox : Outbox)
      → All (λ leased. (leased.lease_token ≡ token) × HasBound publisher leased) records
      → All (IsLeft token records) outbox.rows
      → Settled token [] (
        (settle_all publisher around records outbox).0.rows,
        (settle_all publisher around records outbox).1,
      )
  unfolding settle_all
  settle_all-Settled [] outbox ready h = (refl, h)
  settle_all-Settled (leased ∷ rest) outbox ready h =
      let step = settle-Settled leased rest ready.0.0 ready.0.1 (send around leased) outbox h in
      and_then-Settled (settle publisher around leased (send around leased) outbox)
        (settle_all publisher around rest) step.0 (settle_all-Settled rest _ ready.1 step.1)
