-- ===== src/Outbox/Rows.antt =====
-- What a round of the publisher (src/job_visibility/outbox/publisher.py) may do to a row of the outbox.
use job_scheduling_simulatio.Prelude.{
  ℕ, ◌≤◌, String, ◌≡◌, refl, sym, ap, ◌∙◌, inl, inr, Bool, true, false, ◌&&◌, List, [], ◌∷◌, map,
  arith, Distinct, contains-take, contains-sort, select-Distinct, sort, Bool-cases, is_some,
  nat_key, text_key, select, All, contains, All-weaken,
}
use job_scheduling_simulatio.Model.{Time}
use job_scheduling_simulatio.Scheduler.Types.{OutboxRow}
use job_scheduling_simulatio.Outbox.Leases.{
  OutboxRecord, BrokerCoordinate, OutboxPublisher, update_rows, is_due_row, next_le, due_events,
  event_id_of, lease_row,
}
use job_scheduling_simulatio.Outbox.Publisher.{is_leased_as, published_row, failed_row}

-- The columns of a lease are set together, so are those of a publication, and a published row is not
-- leased.
abbrev pub IsValid : OutboxRow → Type 0
IsValid row =
    (is_some row.lease_owner ≡ is_some row.lease_token)
    × (is_some row.lease_expires_at ≡ is_some row.lease_token)
    × (is_some row.kafka_partition ≡ is_some row.published_at)
    × (is_some row.kafka_offset ≡ is_some row.published_at)
    × (is_some row.published_at && is_some row.lease_token ≡ false)

-- The message of a row never changes, its attempts only grow, and a published row is left alone.
pub record Follows (before : OutboxRow) (after : OutboxRow) : Type 0 where
  pub event : after.event ≡ before.event
  pub topic : after.topic ≡ before.topic
  pub message_key : after.message_key ≡ before.message_key
  pub attempts : before.publish_attempts ≤ after.publish_attempts
  pub final : is_some before.published_at ≡ true → after ≡ before

abbrev pub AllFollow : List OutboxRow → List OutboxRow → Type 0
AllFollow [] [] = Unit
AllFollow [] (y ∷ ys) = ⊥
AllFollow (x ∷ xs) [] = ⊥
AllFollow (x ∷ xs) (y ∷ ys) = Follows x y × AllFollow xs ys

pub Follows-refl : (row : OutboxRow) → Follows row row
Follows-refl row = record {
  event = refl;
  topic = refl;
  message_key = refl;
  attempts = omega arith;
  final = λ _. refl;
}

pub AllFollow-refl : (rows : List OutboxRow) → AllFollow rows rows
AllFollow-refl [] = tt
AllFollow-refl (row ∷ rest) = (Follows-refl row, AllFollow-refl rest)

Follows-trans : (a b c : OutboxRow) → Follows a b → Follows b c → Follows a c
Follows-trans a b c p q = record {
  event = q.event ∙ p.event;
  topic = q.topic ∙ p.topic;
  message_key = q.message_key ∙ p.message_key;
  attempts = omega (arith, p.attempts, q.attempts);
  final =
      λ done. q.final (ap (λ row. is_some row.published_at) (p.final done) ∙ done) ∙ p.final done;
}

pub AllFollow-trans :
    (xs ys zs : List OutboxRow) → AllFollow xs ys → AllFollow ys zs → AllFollow xs zs
AllFollow-trans [] [] [] p q = tt
AllFollow-trans [] [] (z ∷ zs) p q = elim q [ ]
AllFollow-trans [] (y ∷ ys) zs p q = elim p [ ]
AllFollow-trans (x ∷ xs) [] zs p q = elim p [ ]
AllFollow-trans (x ∷ xs) (y ∷ ys) [] p q = elim q [ ]
AllFollow-trans (x ∷ xs) (y ∷ ys) (z ∷ zs) p q =
    (Follows-trans x y z p.0 q.0, AllFollow-trans xs ys zs p.1 q.1)

pub update_rows-All {ℓ κ} :
    (P : OutboxRow → Type ℓ) (Q : OutboxRow → Type κ) (test : OutboxRow → Bool)
    (assign : OutboxRow → OutboxRow) (rows : List OutboxRow)
    → ((row : OutboxRow) → test row ≡ true → P row → Q (assign row))
    → ((row : OutboxRow) → test row ≡ false → P row → Q row)
    → All P rows
    → All Q (update_rows test assign rows)
unfolding update_rows
update_rows-All P Q test assign [] change keep h = tt
update_rows-All P Q test assign (row ∷ rest) change keep h = elim (Bool-cases (test row)) [
  | inl e ↦ rw e (change row e h.0, update_rows-All P Q test assign rest change keep h.1)
  | inr e ↦ rw e (keep row e h.0, update_rows-All P Q test assign rest change keep h.1)
]

pub update_rows-AllFollow :
    (test : OutboxRow → Bool) (assign : OutboxRow → OutboxRow) (rows : List OutboxRow)
    → All (λ row. test row ≡ true → Follows row (assign row)) rows
    → AllFollow rows (update_rows test assign rows)
unfolding update_rows
update_rows-AllFollow test assign [] h = tt
update_rows-AllFollow test assign (row ∷ rest) h = elim (Bool-cases (test row)) [
  | inl e ↦ rw e (h.0 e, update_rows-AllFollow test assign rest h.1)
  | inr e ↦ rw e (Follows-refl row, update_rows-AllFollow test assign rest h.1)
]

-- With distinct event ids the rows that `_lease` changes are due.
pub due_events-due :
    (locked : OutboxRow → Bool) (now : Time) (limit : ℕ) (rows : List OutboxRow)
    → Distinct (map event_id_of rows)
    → All
        (λ row.
          contains (event_id_of row) (map event_id_of (due_events locked now limit rows)) ≡ true
          → is_due_row locked now row ≡ true)
        rows
unfolding due_events
due_events-due locked now limit rows distinct =
    All-weaken
      (λ row.
        contains (event_id_of row) (map event_id_of (select (is_due_row locked now) rows)) ≡ true
        → is_due_row locked now row ≡ true)
      (λ row.
        contains (event_id_of row) (map event_id_of (due_events locked now limit rows)) ≡ true
        → is_due_row locked now row ≡ true)
      rows
      (λ row due found. due (
        sym (
          contains-sort event_id_of (event_id_of row) next_le (select (is_due_row locked now) rows))
        ∙ contains-take event_id_of (event_id_of row) limit
            (sort next_le (select (is_due_row locked now) rows)) found))
      (select-Distinct event_id_of (is_due_row locked now) rows distinct)

abbrev pub KeepsRow : OutboxRow → OutboxRow → Type 0
KeepsRow before after = IsValid after × Follows before after

pub lease_row-KeepsRow :
    (publisher : OutboxPublisher) (token : String) (now : Time) (row : OutboxRow)
    → is_some row.published_at ≡ false
    → IsValid row
    → KeepsRow row (lease_row publisher token now row)
unfolding lease_row
lease_row-KeepsRow publisher token now row free valid = (
  (refl, refl, valid.2, valid.3, rw free refl),
  record {
    event = refl;
    topic = refl;
    message_key = refl;
    attempts = omega arith;
    final = λ done. ground (arith, done, free);
  },
)

leased_free :
    (leased : OutboxRecord) (row : OutboxRow)
    → is_leased_as leased row ≡ true
    → IsValid row
    → is_some row.published_at ≡ false
unfolding is_leased_as
leased_free leased row held valid = ground (arith, held, valid)

pub published_row-KeepsRow :
    (leased : OutboxRecord) (coordinate : BrokerCoordinate) (now : Time) (row : OutboxRow)
    → is_leased_as leased row ≡ true
    → IsValid row
    → KeepsRow row (published_row coordinate now row)
unfolding published_row
published_row-KeepsRow leased coordinate now row held valid = (
  (refl, refl, refl, refl, refl),
  record {
    event = refl;
    topic = refl;
    message_key = refl;
    attempts = omega arith;
    final = λ done. ground (arith, done, leased_free leased row held valid);
  },
)

pub failed_row-KeepsRow :
    (leased : OutboxRecord) (error : String) (delay now : Time) (row : OutboxRow)
    → is_leased_as leased row ≡ true
    → IsValid row
    → KeepsRow row (failed_row error delay now row)
unfolding failed_row
failed_row-KeepsRow leased error delay now row held valid = (
  (refl, refl, valid.2, valid.3, ground arith),
  record {
    event = refl;
    topic = refl;
    message_key = refl;
    attempts = omega arith;
    final = λ done. ground (arith, done, leased_free leased row held valid);
  },
)
