-- ===== src/Cassandra/Selection.antt =====
-- What the handler of src/job_visibility/scheduler/cassandra_workload.py returns and raises.
use mathlib.Core.List.{Memᴰ}
use job_scheduling_simulatio.Prelude.{
  ℕ, ◌≤◌, String, ◌≡◌, refl, ap, ◌⊎◌, inl, inr, Bool, true, false, not, List, [], ◌∷◌, arith, ltb,
  ◌==◌, nat_key, text_key, if_split, length, All, Result, ok, raised,
}
use job_scheduling_simulatio.Config.Groups.{CassandraConfig}
use job_scheduling_simulatio.Scheduler.Types.{HandlerError}
use job_scheduling_simulatio.Workload.Fibonacci.{fibonacci}
use job_scheduling_simulatio.Workload.Doubling.{fib, fibonacci-fib}
use job_scheduling_simulatio.Cassandra.Client.{ClientError}
use job_scheduling_simulatio.Cassandra.Handler.{
  WorkloadPayload, WorkloadClient, WorkloadError, Settings, read_settings, greatest,
  WorkloadSummary, summarize, update_selected, update_records, run_selection, run_settings,
  execute_workload, handler_error,
}
use job_scheduling_simulatio.Cassandra.Records.{WorkloadRecord}
use job_scheduling_simulatio.Cassandra.Bounds.{greatest_bound, greatest-Mem, read_settings-bounds}

module _ {S : Type 0} (client : WorkloadClient S) (config : CassandraConfig) (text_of : ℕ → String)
    (operation_id : String) (state : S) where
  abbrev Bounded : WorkloadPayload → Settings → Type 0
  Bounded payload settings =
      (read_settings config payload ≡ ok settings)
      × (1 ≤ settings.record_count)
      × (settings.record_count ≤ config.max_record_count)
      × (settings.delay_ms ≤ config.max_processing_delay_ms)

  -- The record that a summary is about.
  pub record IsChosen (records : List WorkloadRecord) (summary : WorkloadSummary) : Type 0 where
    pub chosen : WorkloadRecord
    pub member : Memᴰ chosen records
    pub greatest_input : All (λ r. r.input_number ≤ chosen.input_number) records
    pub input : summary.maximum ≡ chosen.input_number
    pub bucket : summary.bucket ≡ chosen.bucket
    pub record_id : summary.record_id ≡ chosen.record_id
    pub checksum : summary.previous_checksum ≡ chosen.checksum

  -- A summary counts the records that the client has selected for the settings of the payload, as many
  -- as they ask for; it is about one of them with the greatest input number, whose Fibonacci number it
  -- has, within the bounds of the configuration.
  pub record IsSound (payload : WorkloadPayload) (summary : WorkloadSummary) : Type 0 where
    pub settings : Settings
    pub records : List WorkloadRecord
    pub read : read_settings config payload ≡ ok settings
    pub selected :
        client.select state settings.dataset_id settings.record_count settings.seed ≡ ok records
    pub counted : summary.rows ≡ length records
    pub complete : length records ≡ settings.record_count
    pub some_row : 1 ≤ summary.rows
    pub few_rows : summary.rows ≤ config.max_record_count
    pub choice : IsChosen records summary
    pub small_input : summary.maximum ≤ config.max_input_number
    pub short_delay : summary.delay_ms ≤ config.max_processing_delay_ms
    pub of_job : summary.operation_id ≡ operation_id
    pub is_fibonacci : summary.result ≡ text_of (fib summary.maximum)

  -- What the handler may end in: a sound summary, an error that may be retried, or an error with the
  -- state of the client as it was.
  abbrev IsFair : WorkloadPayload → S × Result WorkloadError WorkloadSummary → Type 0
  IsFair payload r =
      ((summary : WorkloadSummary) × (r.1 ≡ ok summary) × IsSound payload summary)
      ⊎ ((error : HandlerError) × (r.1 ≡ raised (handler_error error)) × (error.retryable ≡ true))
      ⊎ ((error : WorkloadError) × (r ≡ (state, raised error)))

  module _ (payload : WorkloadPayload) (settings : Settings) (b : Bounded payload settings)
      (first : WorkloadRecord) (rest : List WorkloadRecord)
      (found : client.select state settings.dataset_id settings.record_count settings.seed
        ≡ ok (first ∷ rest))
      (full : length (first ∷ rest) ≡ settings.record_count) where
    abbrev best : WorkloadRecord
    best = greatest first rest

    summarize-IsFair :
        (answer : Result ClientError (Bool × ℕ)) (next : S)
        → best.input_number ≤ config.max_input_number
        → IsFair payload (
          next,
          summarize settings
              (first ∷ rest)
              best
              operation_id
              (text_of (fibonacci best.input_number))
              answer,
        )
    unfolding summarize
    summarize-IsFair (raised failure) next small = inr (inl (_, refl, refl))
    summarize-IsFair (ok (false, checksum)) next small = inr (inl (_, refl, refl))
    summarize-IsFair (ok (true, checksum)) next small = inl (
      _,
      refl,
      record {
        settings = settings;
        records = first ∷ rest;
        read = b.0;
        selected = found;
        counted = refl;
        complete = full;
        some_row = omega arith;
        few_rows = omega (arith, full, b);
        choice = record {
          chosen = best;
          member = greatest-Mem first rest;
          greatest_input = greatest_bound first rest;
          input = refl;
          bucket = refl;
          record_id = refl;
          checksum = refl;
        };
        small_input = small;
        short_delay = b.3;
        of_job = refl;
        is_fibonacci = ap text_of (fibonacci-fib best.input_number);
      },
    )

    update_selected-IsFair :
        IsFair payload
          (update_selected client config text_of settings operation_id (first ∷ rest) best state)
    unfolding update_selected
    update_selected-IsFair =
        if_split (IsFair payload) (ltb config.max_input_number best.input_number) _ _
          (λ large. inr (inr (_, refl))) (λ small. summarize-IsFair _ _ (ground (arith, small)))

  update_records-IsFair :
      (payload : WorkloadPayload) (settings : Settings) (records : List WorkloadRecord)
      → Bounded payload settings
      → client.select state settings.dataset_id settings.record_count settings.seed ≡ ok records
      → IsFair payload (update_records client config text_of settings operation_id records state)
  unfolding update_records
  update_records-IsFair payload settings [] b found = inr (inr (_, refl))
  update_records-IsFair payload settings (first ∷ rest) b found =
      if_split (IsFair payload) (not (length (first ∷ rest) == settings.record_count)) _ _
        (λ short. inr (inr (_, refl)))
        (λ full. update_selected-IsFair payload settings b first rest found (ground (arith, full)))

  run_settings-IsFair :
      (payload : WorkloadPayload) (settings : Result WorkloadError Settings)
      → ((s : Settings) → settings ≡ ok s → Bounded payload s)
      → IsFair payload (run_settings client config text_of settings operation_id state)
  unfolding run_settings run_selection
  run_settings-IsFair payload (raised error) b = inr (inr (_, refl))
  run_settings-IsFair payload (ok s) b =
      run_selection-IsFair (client.select state s.dataset_id s.record_count s.seed) refl
    where
      run_selection-IsFair :
          (records : Result ClientError (List WorkloadRecord))
          → client.select state s.dataset_id s.record_count s.seed ≡ records
          → IsFair payload (run_selection client config text_of s operation_id records state)
      run_selection-IsFair (raised error) e = inr (inr (_, refl))
      run_selection-IsFair (ok records) e = update_records-IsFair payload s records (b s refl) e

  -- Whatever the client does, the handler ends in a summary, in an error that may be retried, or in an
  -- error with the state of the client as it was. A summary counts the records that the client has
  -- selected, as many as the settings of the payload ask for; it is about one of them with the greatest
  -- input number, whose Fibonacci number it has, and is within the bounds of the configuration.
  pub execute_workload-IsSound :
      (payload : WorkloadPayload)
      → let r = execute_workload client config text_of payload operation_id state in
        ((summary : WorkloadSummary) × (r.1 ≡ ok summary) × IsSound payload summary)
        ⊎ ((error : HandlerError) × (r.1 ≡ raised (handler_error error)) × (error.retryable ≡ true))
        ⊎ ((error : WorkloadError) × (r ≡ (state, raised error)))
  unfolding execute_workload
  execute_workload-IsSound payload =
      run_settings-IsFair payload (read_settings config payload)
        (λ s e. let b = read_settings-bounds config payload s e in (e, b.0, b.1, b.2))
