-- ===== src/Journal/Liveness.antt =====
-- Calm rounds of the projection worker bring every job up to date
-- (src/job_visibility/edr_store/projection_worker.py).
use job_scheduling_simulatio.Prelude.{ℕ, zero, suc, ◌≡◌, List, nat_key, text_key}
use job_scheduling_simulatio.Model.{code_key}
use job_scheduling_simulatio.Journal.Progress.{waiting, calm_round}
use job_scheduling_simulatio.Journal.Tables.{EdrDatabase}
use job_scheduling_simulatio.Journal.Reachable.{Reaches}

abbrev pub calm_rounds : ℕ → ℕ → EdrDatabase → EdrDatabase
calm_rounds zero batch_size db = db
calm_rounds (suc n) batch_size db = calm_rounds n batch_size (calm_round batch_size db).0

-- What calm rounds over sound rows leave: the same events, none of which waits.
record Done (db final : EdrDatabase) : Type 0 where
  same_events : final.events ≡ db.events
  reached : Reaches final
  none_waits : waiting final ≡ 0
