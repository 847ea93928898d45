-- ===== src/Outbox/Settles.antt =====
-- A round of src/job_visibility/outbox/publisher.py settles every record that it has leased.
use mathlib.Core.List.{Perm, Permᴰ}
use mathlib.Core.Bool.{Bool-set}
use mathlib.Core.Logic.{∥∥₁_elim}
use job_scheduling_simulatio.Prelude.{
  ℕ, ◌<◌, String, ◌≡◌, refl, ◌∙◌, inl, inr, Bool, true, false, not, ◌&&◌, none, some, List, [], ◌∷◌,
  map, arith, leb, if◌then◌else◌, Bool-cases, nat_key, text_key, same_refl, length, select, All,
  All-select, every, every-All, All-every, contains, All-weaken, All-zip, Result, ok, raised,
}
use job_scheduling_simulatio.Model.{Time}
use job_scheduling_simulatio.Scheduler.Types.{OutboxRow}
use job_scheduling_simulatio.Outbox.Delivery.{id_of}
use job_scheduling_simulatio.Outbox.Leases.{
  OutboxRecord, OutboxPublisher, transact, Surroundings, Outbox, due_events, event_id_of, lease_row,
  outbox_record, lease, committed,
}
use job_scheduling_simulatio.Outbox.Publisher.{
  is_token, ceiling, settle_all, counted, settle_leased, run_once,
}
use job_scheduling_simulatio.Outbox.Settling.{IsLeft, HasBound, Settled, settle_all-Settled}
use job_scheduling_simulatio.Outbox.Rows.{update_rows-All}

-- Rearranged rows have the same ids.
contains-permᴰ :
    (k : String) {xs ys : List OutboxRow}
    → Permᴰ xs ys
    → contains k (map event_id_of xs) ≡ contains k (map event_id_of ys)
contains-permᴰ k Permᴰ.nil = refl
contains-permᴰ k (Permᴰ.cons e p) = rw (e, contains-permᴰ k p)
contains-permᴰ k (Permᴰ.swap e f) = rw (e, f) (ground arith)
contains-permᴰ k (Permᴰ.trans p q) = contains-permᴰ k p ∙ contains-permᴰ k q

contains-perm :
    (k : String) (xs ys : List OutboxRow)
    → Perm xs ys
    → contains k (map event_id_of xs) ≡ contains k (map event_id_of ys)
contains-perm k xs ys p = ∥∥₁_elim p (Bool-set _ _) (λ q. contains-permᴰ k q)

every-permᴰ :
    (p : OutboxRow → Bool) {xs ys : List OutboxRow} → Permᴰ xs ys → every p xs ≡ every p ys
every-permᴰ p Permᴰ.nil = refl
every-permᴰ p (Permᴰ.cons e q) = rw (e, every-permᴰ p q)
every-permᴰ p (Permᴰ.swap e f) = rw (e, f) (ground arith)
every-permᴰ p (Permᴰ.trans q r) = every-permᴰ p q ∙ every-permᴰ p r

every-perm : (p : OutboxRow → Bool) (xs ys : List OutboxRow) → Perm xs ys → every p xs ≡ every p ys
every-perm p xs ys q = ∥∥₁_elim q (Bool-set _ _) (λ r. every-permᴰ p r)

-- The records of rows have the ids of the rows, and the token.
contains-outbox_record :
    (k token : String) (rows : List OutboxRow)
    → contains k (map id_of (map (outbox_record token) rows)) ≡ contains k (map event_id_of rows)
unfolding outbox_record
contains-outbox_record k token [] = refl
contains-outbox_record k token (row ∷ rest) = rw (contains-outbox_record k token rest)

-- Whether a failure of the row has a bound on its wait.
abbrev is_bounded : OutboxPublisher → OutboxRow → Bool
is_bounded publisher row = not (publisher.float_retry && leb 1024 row.publish_attempts)

outbox_record-ready :
    (publisher : OutboxPublisher) (token : String) (rows : List OutboxRow)
    → All (λ row. is_bounded publisher row ≡ true) rows
    → All
        (λ leased. (leased.lease_token ≡ token) × HasBound publisher leased)
        (map (outbox_record token) rows)
unfolding outbox_record ceiling
outbox_record-ready publisher token [] h = tt
outbox_record-ready publisher token (row ∷ rest) h = (
  (refl, (_, bound-some (publisher.float_retry && leb 1024 row.publish_attempts) _ h.0)),
  outbox_record-ready publisher token rest h.1,
)
  where
    bound-some : (b : Bool) (t : Time) → not b ≡ true → (if b then none else some t) ≡ some t
    bound-some true t e = cc
    bound-some false t e = refl

select-contains :
    (p : OutboxRow → Bool) (rows : List OutboxRow)
    → All
        (λ row. p row ≡ true → contains row.event.event_id (map event_id_of (select p rows)) ≡ true)
        rows
select-contains p [] = tt
select-contains p (row ∷ rest) = (
  λ e. ground (arith, e, same_refl row.event.event_id),
  All-weaken (λ r. p r ≡ true → contains r.event.event_id (map event_id_of (select p rest)) ≡ true)
      (λ r. p r ≡ true → contains r.event.event_id (map event_id_of (select p (row ∷ rest))) ≡ true)
      rest (λ r k e. ground (arith, k e)) (select-contains p rest),
)

-- `_lease` returns a record for every row that it leases.
lease-IsLeft :
    (publisher : OutboxPublisher) (around : Surroundings) (locked : OutboxRow → Bool)
    (token : String) (now : Time) (rows : List OutboxRow)
    → ((xs : List OutboxRow) → Perm (around.returned xs) xs)
    → All (λ row. is_token row.lease_token token ≡ false) rows
    → All
        (IsLeft token (lease publisher around locked token now rows).1)
        (lease publisher around locked token now rows).0
unfolding lease lease_row
lease-IsLeft publisher around locked token now rows arranges fresh =
    let ids = map event_id_of (due_events locked now publisher.batch_size rows) in
    let is_leased = λ (row : OutboxRow). contains row.event.event_id ids in
    let listed = λ (k : String).
      contains-outbox_record k token (around.returned (select is_leased rows))
      ∙ contains-perm k (around.returned (select is_leased rows)) (select is_leased rows)
          (arranges (select is_leased rows)) in
    update_rows-All
      (λ row.
        (is_token row.lease_token token ≡ false)
        × (is_leased row ≡ true
            → contains row.event.event_id (map event_id_of (select is_leased rows)) ≡ true))
      (IsLeft token (map (outbox_record token) (around.returned (select is_leased rows)))) is_leased
      (lease_row publisher token now) rows (λ row e k _. listed row.event.event_id ∙ k.1 e)
      (λ row e k held. ground (arith, held, k.0))
      (All-zip _ _ rows fresh (select-contains is_leased rows))

few_failures-bounded :
    (publisher : OutboxPublisher) (row : OutboxRow)
    → (publisher.float_retry ≡ true → row.publish_attempts < 1024)
    → is_bounded publisher row ≡ true
few_failures-bounded publisher row few = elim (Bool-cases publisher.float_retry) [
  | inl float ↦ ground (arith, float, few float)
  | inr int ↦ ground (arith, int)
]

-- The records that a round leases under its token can all be settled.
lease-ready :
    (publisher : OutboxPublisher) (around : Surroundings) (locked : OutboxRow → Bool)
    (token : String) (now : Time) (rows : List OutboxRow)
    → ((xs : List OutboxRow) → Perm (around.returned xs) xs)
    → All (λ row. is_bounded publisher row ≡ true) rows
    → All
        (λ leased. (leased.lease_token ≡ token) × HasBound publisher leased)
        (lease publisher around locked token now rows).1
unfolding lease
lease-ready publisher around locked token now rows arranges bounded =
    let taken =
      select
        (λ (row : OutboxRow).
          contains row.event.event_id
            (map event_id_of (due_events locked now publisher.batch_size rows)))
        rows in
    outbox_record-ready publisher token (around.returned taken) (
      every-All (is_bounded publisher) (around.returned taken) (
        every-perm (is_bounded publisher) (around.returned taken) taken (arranges taken)
        ∙ All-every (is_bounded publisher) taken (
            All-weaken _ _ taken (λ row both. both.0)
              (All-select (λ row. is_bounded publisher row ≡ true) _ rows bounded))))

settle_leased-ok :
    (publisher : OutboxPublisher) (around : Surroundings) (token : String)
    (records : List OutboxRecord) (outbox : Outbox)
    → Settled token [] (
      (settle_all publisher around records outbox).0.rows,
      (settle_all publisher around records outbox).1,
    )
    → ((settle_leased publisher around records (ok tt) outbox).1 ≡ ok (length records))
      × All (IsLeft token []) (settle_leased publisher around records (ok tt) outbox).0.rows
unfolding settle_leased
settle_leased-ok publisher around token records outbox h =
    counted-ok (settle_all publisher around records outbox) h
  where
    counted-ok :
        (r : Outbox × Result String (Unit {0}))
        → Settled token [] (r.0.rows, r.1)
        → ((counted (length records) r).1 ≡ ok (length records))
          × All (IsLeft token []) (counted (length records) r).0.rows
    counted-ok (after, ok done) h = (refl, h.1)
    counted-ok (after, raised error) h = cc (h.0)

-- If the UUID of a round is fresh, the database returns the rows that it has changed, the transactions
-- of `_lease` and `_failed` are committed and answered, and no row has failed 1024 times where the
-- initial wait is a float: the round raises nothing and leaves no row leased under its token, whatever
-- the broker, the fault injector and the transactions of `_published` do.
pub run_once-settles :
    (publisher : OutboxPublisher) (around : Surroundings) (locked : OutboxRow → Bool)
    (token : String) (now : Time) (outbox : Outbox)
    → ((xs : List OutboxRow) → Perm (around.returned xs) xs)
    → around.leasing ≡ committed
    → ((leased : OutboxRecord) → around.failing leased ≡ committed)
    → All (λ row. publisher.float_retry ≡ true → row.publish_attempts < 1024) outbox.rows
    → All (λ row. is_token row.lease_token token ≡ false) outbox.rows
    → ((n : ℕ) × ((run_once publisher around locked token now outbox).1 ≡ ok n))
      × All
          (λ row. is_token row.lease_token token ≡ false)
          (run_once publisher around locked token now outbox).0.rows
unfolding run_once transact
run_once-settles publisher around locked token now outbox arranges leases answered seldom fresh =
    elim (Bool-cases publisher.stopping) [
      | inl e ↦ rw e ((0, refl), fresh)
      | inr e ↦
          let (rows, records) = lease publisher around locked token now outbox.rows in
          let bounded =
            All-weaken (λ row. publisher.float_retry ≡ true → row.publish_attempts < 1024)
              (λ row. is_bounded publisher row ≡ true) outbox.rows
              (λ row few. few_failures-bounded publisher row few) seldom in
          let settled =
            settle_leased-ok publisher around token records (record outbox { rows = rows })
              (settle_all-Settled publisher around token answered records
                (record outbox { rows = rows })
                (lease-ready publisher around locked token now outbox.rows arranges bounded)
                (lease-IsLeft publisher around locked token now outbox.rows arranges fresh)) in
          rw (e, leases)
            (
              (length records, settled.0),
              All-weaken (IsLeft token []) (λ row. is_token row.lease_token token ≡ false) _
                  (λ row left. ground (arith, left)) settled.1,
            )
    ]
