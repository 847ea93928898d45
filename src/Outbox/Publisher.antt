-- ===== src/Outbox/Publisher.antt =====
-- `OutboxPublisher` of src/job_visibility/outbox/publisher.py over the rows of `scheduler_outbox`.
-- The broker, the fault injector, the callback after an acknowledgement, the random source, the clock,
-- the order in which the database returns updated rows and the end of each transaction are arguments. A
-- time is in microseconds, so half of a delay is rounded down.
use job_scheduling_simulatio.Prelude.{
  ℕ, ◌+◌, ◌*◌, ◌/◌, ◌^◌, min, String, Bool, true, false, ◌&&◌, Option, none, some, List, [], ◌∷◌,
  ◌++◌, clip, leb, if◌then◌else◌, or_else, ◌==◌, nat_key, text_key, length, Result, ok, raised,
}
use job_scheduling_simulatio.Model.{Time}
use job_scheduling_simulatio.Scheduler.Types.{
  OutboxRow, publisher_before_send, publisher_after_broker_ack,
}
use job_scheduling_simulatio.Outbox.Leases.{
  OutboxRecord, BrokerCoordinate, OutboxPublisher, transact, Surroundings, Outbox, update_rows,
  lease,
}

abbrev pub is_token : Option String → String → Bool
is_token none token = false
is_token (some held) token = held == token

-- `WHERE event_id=:id AND lease_token=:token`.
unfoldable pub is_leased_as : OutboxRecord → OutboxRow → Bool
is_leased_as leased row =
    row.event.event_id == leased.event_id && is_token row.lease_token leased.lease_token

unfoldable pub published_row : BrokerCoordinate → Time → OutboxRow → OutboxRow
published_row coordinate now row = record row {
  published_at = some now;
  kafka_partition = some coordinate.partition;
  kafka_offset = some coordinate.offset;
  lease_owner = none;
  lease_token = none;
  lease_expires_at = none;
  last_error = none;
}

-- `_published`.
unfoldable pub published : OutboxRecord → BrokerCoordinate → Time → List OutboxRow → List OutboxRow
unfolding update_rows is_leased_as published_row
published leased coordinate now rows =
    update_rows (is_leased_as leased) (published_row coordinate now) rows

unfoldable pub failed_row : String → Time → Time → OutboxRow → OutboxRow
failed_row error delay now row = record row {
  publish_attempts = row.publish_attempts + 1;
  last_error = some (clip 200 error);
  next_attempt_at = now + delay;
  lease_owner = none;
  lease_token = none;
  lease_expires_at = none;
}

-- `min(self.retry_max, self.retry_initial * 2**record.attempts)`, or none where it raises OverflowError:
-- a float times an int needs the int as a float, which 2**1024 is too large for.
unfoldable pub ceiling : OutboxPublisher → OutboxRecord → Option Time
ceiling publisher leased =
    if publisher.float_retry && leb 1024 leased.attempts
    then none
    else some (min publisher.retry_max (publisher.retry_initial * 2 ^ leased.attempts))

-- `_failed` under the bound on its delay.
unfoldable pub failed_within :
    Surroundings
    → OutboxRecord
    → String
    → Option Time
    → List OutboxRow
    → List OutboxRow × Result String (Unit {0})
unfolding update_rows transact is_leased_as failed_row
failed_within around leased error none rows = (rows, raised "OverflowError")
failed_within around leased error (some bound) rows =
    let delay = around.uniform leased (bound / 2) bound in
    transact (around.failing leased)
      (update_rows (is_leased_as leased) (failed_row error delay (around.clock leased))) rows

-- `_failed`.
unfoldable pub failed :
    OutboxPublisher
    → Surroundings
    → OutboxRecord
    → String
    → List OutboxRow
    → List OutboxRow × Result String (Unit {0})
unfolding failed_within ceiling
failed publisher around leased error rows =
    failed_within around leased error (ceiling publisher leased) rows

-- The fault before the send, and the send.
abbrev pub send : Surroundings → OutboxRecord → Result String BrokerCoordinate
send around leased = elim (around.fault publisher_before_send leased) [
  | none ↦ around.publish leased
  | some error ↦ raised error
]

-- What is raised between the acknowledgement and `_published`.
abbrev pub after_send : Surroundings → OutboxRecord → BrokerCoordinate → Option String
after_send around leased coordinate =
    or_else (around.after_ack leased coordinate) (around.fault publisher_after_broker_ack leased)

-- The handler of the `try` after the last statement of its body: an exception of `_published` ends in
-- `_failed` too.
unfoldable pub after_publish :
    OutboxPublisher
    → Surroundings
    → OutboxRecord
    → List OutboxRow × Result String (Unit {0})
    → List OutboxRow × Result String (Unit {0})
unfolding failed
after_publish publisher around leased (rows, ok done) = (rows, ok done)
after_publish publisher around leased (rows, raised error) =
    failed publisher around leased error rows

-- The rows after an acknowledgement, by what is raised after it.
unfoldable pub settle_sent :
    OutboxPublisher
    → Surroundings
    → OutboxRecord
    → BrokerCoordinate
    → Option String
    → List OutboxRow
    → List OutboxRow × Result String (Unit {0})
unfolding published failed transact after_publish
settle_sent publisher around leased coordinate none rows =
    after_publish publisher around leased
      (transact (around.publishing leased) (published leased coordinate (around.clock leased)) rows)
settle_sent publisher around leased coordinate (some error) rows =
    failed publisher around leased error rows

-- The outbox after the send, by its outcome, and what `_failed` raises, which ends the round.
unfoldable pub settle :
    OutboxPublisher
    → Surroundings
    → OutboxRecord
    → Result String BrokerCoordinate
    → Outbox
    → Outbox × Result String (Unit {0})
unfolding failed settle_sent
settle publisher around leased (raised error) outbox =
    let (rows, done) = failed publisher around leased error outbox.rows in
    (record outbox { rows = rows }, done)
settle publisher around leased (ok coordinate) outbox =
    let (rows, done) =
      settle_sent publisher around leased coordinate (after_send around leased coordinate)
        outbox.rows in
    (record { rows = rows; acknowledged = outbox.acknowledged ++ leased ∷ [] }, done)

-- What follows a step of the loop, unless the step has raised.
abbrev pub and_then :
    Outbox × Result String (Unit {0})
    → (Outbox → Outbox × Result String (Unit {0}))
    → Outbox × Result String (Unit {0})
and_then (outbox, ok done) next = next outbox
and_then (outbox, raised error) next = (outbox, raised error)

-- The loop of `run_once`.
unfoldable pub settle_all :
    OutboxPublisher → Surroundings → List OutboxRecord → Outbox → Outbox × Result String (Unit {0})
unfolding settle
settle_all publisher around [] outbox = (outbox, ok tt)
settle_all publisher around (leased ∷ rest) outbox =
    and_then (settle publisher around leased (send around leased) outbox)
      (settle_all publisher around rest)

abbrev pub counted : ℕ → Outbox × Result String (Unit {0}) → Outbox × Result String ℕ
counted n (outbox, ok done) = (outbox, ok n)
counted n (outbox, raised error) = (outbox, raised error)

-- The round after `_lease`, which may have raised; the answer is the number of records.
unfoldable pub settle_leased :
    OutboxPublisher
    → Surroundings
    → List OutboxRecord
    → Result String (Unit {0})
    → Outbox
    → Outbox × Result String ℕ
unfolding settle_all
settle_leased publisher around records (raised error) outbox = (outbox, raised error)
settle_leased publisher around records (ok done) outbox =
    counted (length records) (settle_all publisher around records outbox)

-- `run_once`: the outbox after it, and the number of leased records or what it raises.
unfoldable pub run_once :
    OutboxPublisher
    → Surroundings
    → (OutboxRow → Bool)
    → String
    → Time
    → Outbox
    → Outbox × Result String ℕ
unfolding lease transact settle_leased
run_once publisher around locked token now outbox =
    if publisher.stopping
    then (outbox, ok 0)
    else let (changed, records) = lease publisher around locked token now outbox.rows in
      let (rows, leased) = transact around.leasing (λ _. changed) outbox.rows in
      settle_leased publisher around records leased (record outbox { rows = rows })

-- `stop`; the producer is closed outside the model.
unfoldable pub stop : OutboxPublisher → OutboxPublisher
stop publisher = record publisher { stopping = true }
