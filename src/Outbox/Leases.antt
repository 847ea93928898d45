-- ===== src/Outbox/Leases.antt =====
-- The state of the publisher of src/job_visibility/outbox/publisher.py, and what it leases of the rows of
-- `scheduler_outbox`. A time is in microseconds.
use job_scheduling_simulatio.Prelude.{
  ℕ, ◌+◌, String, Bool, true, not, ◌&&◌, ◌||◌, Option, none, some, List, [], ◌∷◌, map, sort, ltb,
  leb, if◌then◌else◌, is_some, ◌==◌, nat_key, text_key, select, take, contains, Result, ok, raised,
}
use job_scheduling_simulatio.Model.{Time, seconds, Event}
use job_scheduling_simulatio.Scheduler.Types.{Checkpoint, OutboxRow}

-- `OutboxRecord`; the event stands for its payload.
pub record OutboxRecord : Type 0 where
  pub event_id : String
  pub topic : String
  pub message_key : String
  pub payload : Event
  pub attempts : ℕ
  pub lease_token : String

pub record BrokerCoordinate : Type 0 where
  pub partition : ℕ
  pub offset : ℕ

-- `OutboxPublisher.__init__` and its `stopping` flag; `float_retry` says whether `retry_initial` is a
-- float, as its annotation has it, or an int.
pub record OutboxPublisher : Type 0 where
  pub owner : String
  pub batch_size : ℕ
  pub lease_seconds : ℕ
  pub retry_initial : Time
  pub float_retry : Bool
  pub retry_max : Time
  pub stopping : Bool

-- How a transaction of the publisher ends. An exception, told by the name of its class, comes before
-- the commit, which leaves no trace, or after it, when only the answer is lost.
pub data Transaction : Type 0 where
  committed : Transaction
  rolled_back unanswered : String → Transaction

-- The rows after a transaction that changes them by `update`, and what it raises.
unfoldable pub transact :
    Transaction
    → (List OutboxRow → List OutboxRow)
    → List OutboxRow
    → List OutboxRow × Result String (Unit {0})
transact committed update rows = (update rows, ok tt)
transact (rolled_back error) update rows = (rows, raised error)
transact (unanswered error) update rows = (update rows, raised error)

-- What a publisher calls. `leasing` is how the transaction of `_lease` ends, `publishing` and `failing`
-- those of `_published` and `_failed` for a record. `uniform` is the random source, `clock` the reading
-- of the clock by the statement that settles a record, and `returned` arranges the rows of
-- `UPDATE … RETURNING`.
pub record Surroundings : Type 0 where
  pub fault : Checkpoint → OutboxRecord → Option String
  pub publish : OutboxRecord → Result String BrokerCoordinate
  pub after_ack : OutboxRecord → BrokerCoordinate → Option String
  pub uniform : OutboxRecord → Time → Time → Time
  pub clock : OutboxRecord → Time
  pub leasing : Transaction
  pub publishing : OutboxRecord → Transaction
  pub failing : OutboxRecord → Transaction
  pub returned : List OutboxRow → List OutboxRow

-- The rows, and the records whose messages the broker has acknowledged.
pub record Outbox : Type 0 where
  pub rows : List OutboxRow
  pub acknowledged : List OutboxRecord

-- `UPDATE scheduler_outbox SET … WHERE …`.
unfoldable pub update_rows :
    (OutboxRow → Bool) → (OutboxRow → OutboxRow) → List OutboxRow → List OutboxRow
update_rows test assign [] = []
update_rows test assign (row ∷ rest) =
    (if test row then assign row else row) ∷ update_rows test assign rest

abbrev lease_ended : Option Time → Time → Bool
lease_ended none now = true
lease_ended (some expires_at) now = ltb expires_at now

-- The condition of the `due` rows.
abbrev pub is_due_row : (OutboxRow → Bool) → Time → OutboxRow → Bool
is_due_row locked now row =
    not (is_some row.published_at)
    && leb row.next_attempt_at now
    && lease_ended row.lease_expires_at now
    && not (locked row)

-- `ORDER BY next_attempt_at, created_at`.
abbrev pub next_le : OutboxRow → OutboxRow → Bool
next_le a b =
    ltb a.next_attempt_at b.next_attempt_at
    || a.next_attempt_at == b.next_attempt_at && leb a.created_at b.created_at

unfoldable pub due_events : (OutboxRow → Bool) → Time → ℕ → List OutboxRow → List OutboxRow
due_events locked now limit rows = take limit (sort next_le (select (is_due_row locked now) rows))

abbrev pub event_id_of : OutboxRow → String
event_id_of row = row.event.event_id

unfoldable pub lease_row : OutboxPublisher → String → Time → OutboxRow → OutboxRow
lease_row publisher token now row = record row {
  lease_owner = some publisher.owner;
  lease_token = some token;
  lease_expires_at = some (now + seconds publisher.lease_seconds);
}

-- The record of a row that was leased under the token.
unfoldable pub outbox_record : String → OutboxRow → OutboxRecord
outbox_record token row = record {
  event_id = row.event.event_id;
  topic = row.topic;
  message_key = row.message_key;
  payload = row.event;
  attempts = row.publish_attempts;
  lease_token = token;
}

-- The statement of `_lease` with the UUID that it draws: the changed rows and the records.
unfoldable pub lease :
    OutboxPublisher
    → Surroundings
    → (OutboxRow → Bool)
    → String
    → Time
    → List OutboxRow
    → List OutboxRow × List OutboxRecord
unfolding update_rows due_events lease_row outbox_record
lease publisher around locked token now rows =
    let ids = map event_id_of (due_events locked now publisher.batch_size rows) in
    let is_leased = λ (row : OutboxRow). contains row.event.event_id ids in
    (
      update_rows is_leased (lease_row publisher token now) rows,
      map (outbox_record token) (around.returned (select is_leased rows)),
    )
