-- ===== src/Cassandra/Bounds.antt =====
-- The choice of a record and the bounds of the settings, of
-- src/job_visibility/scheduler/cassandra_workload.py.
use mathlib.Core.List.{Memᴰ}
use mathlib.Core.List.Memᴰ
use job_scheduling_simulatio.Prelude.{
  ℕ, ◌≤◌, String, ◌≡◌, refl, inl, inr, Option, none, some, List, [], ◌∷◌, arith, if◌then◌else◌,
  Bool-cases, All, Result, ok,
}
use job_scheduling_simulatio.Config.Groups.{CassandraConfig}
use job_scheduling_simulatio.Cassandra.Handler.{
  JsonValue, WorkloadPayload, WorkloadError, Settings, dataset_of, in_range, integer_of, or_zero,
  need, read_settings, key_le, greatest, missing, other_value, natural, negative, string,
}
use job_scheduling_simulatio.Cassandra.Records.{WorkloadRecord}

-- No record of the selection has a greater input number than the selected one.
pub greatest_bound :
    (best : WorkloadRecord) (records : List WorkloadRecord)
    → (best.input_number ≤ (greatest best records).input_number)
      × All (λ r. r.input_number ≤ (greatest best records).input_number) records
unfolding greatest
greatest_bound best [] = (omega arith, tt)
greatest_bound best (next ∷ rest) =
    let winner = if key_le next best then best else next in
    let h = greatest_bound winner rest in
    let first : best.input_number ≤ winner.input_number = ground arith in
    let second : next.input_number ≤ winner.input_number = ground arith in
    (omega (arith, h.0, first), (omega (arith, h.0, second), h.1))

-- The selected record is one of the selection.
pub greatest-Mem :
    (best : WorkloadRecord) (records : List WorkloadRecord)
    → Memᴰ (greatest best records) (best ∷ records)
unfolding greatest
greatest-Mem best [] = Memᴰ.head refl
greatest-Mem best (next ∷ rest) = elim (Bool-cases (key_le next best)) [
  | inl e ↦
      rw (e, greatest)
        (elim (Memᴰ.cases_cons (greatest-Mem best rest)) [
          | inl here ↦ Memᴰ.head here
          | inr below ↦ Memᴰ.tail (Memᴰ.tail below)
        ])
  | inr e ↦ rw (e, greatest) (Memᴰ.tail (greatest-Mem next rest))
]

-- A test that is passed has found its value.
need_cases {ℓ} :
    {A : Type 0} {P : Type ℓ} (o : Option A) (code : String)
    (rest : A → Result WorkloadError Settings) (settings : Settings)
    → need o code rest ≡ ok settings
    → ((a : A) → o ≡ some a → rest a ≡ ok settings → P)
    → P
need_cases none code rest settings e f = cc
need_cases (some a) code rest settings e f = f a refl e

in_range_bounds :
    (low high n : ℕ) (value : JsonValue) → in_range low high value ≡ some n → (low ≤ n) × (n ≤ high)
in_range_bounds low high n missing e = cc
in_range_bounds low high n other_value e = cc
in_range_bounds low high n (natural m) e = ground (arith, e)
in_range_bounds low high n (negative m) e = cc
in_range_bounds low high n (string text) e = cc

-- The bounds that the payload of a settings has passed.
pub read_settings-bounds :
    (config : CassandraConfig) (payload : WorkloadPayload) (settings : Settings)
    → read_settings config payload ≡ ok settings
    → (1 ≤ settings.record_count)
      × (settings.record_count ≤ config.max_record_count)
      × (settings.delay_ms ≤ config.max_processing_delay_ms)
unfolding read_settings
read_settings-bounds config payload settings e =
    need_cases (dataset_of payload.dataset_id) "INVALID_DATASET" _ settings e λ dataset_id found e₁.
      need_cases (in_range 1 config.max_record_count payload.record_count) "INVALID_RECORD_COUNT" _
        settings e₁
        λ record_count counted e₂.
          need_cases (integer_of payload.seed) "INVALID_SEED" _ settings e₂ λ seed seeded e₃.
            need_cases
              (in_range 0 config.max_processing_delay_ms (or_zero payload.processing_delay_ms))
              "INVALID_PROCESSING_DELAY" _ settings e₃
              λ delay_ms delayed e₄.
                let b =
                  in_range_bounds 1 config.max_record_count record_count payload.record_count
                    counted in
                let d =
                  in_range_bounds 0 config.max_processing_delay_ms delay_ms
                    (or_zero payload.processing_delay_ms) delayed in
                ground (arith, e₄, b, d)
