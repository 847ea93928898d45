-- ===== src/Engine.antt =====
-- `VisibilityEngine` of src/job_visibility/engine.py: the in-memory EDR store and projector. `Store`
-- has its state, `apply` and `apply_with_retry`, `Reconcile` the timeout findings, `View` what
-- `get`, `attempts`, `search` and `snapshot` answer; the other modules prove.
pub mod Store
pub mod Reconcile
pub mod View
pub mod Invariant
pub mod Delivery
pub mod Optimistic
mod Tests
