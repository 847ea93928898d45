-- ===== src/Model.antt =====
-- src/job_visibility/model.py: the data that the engine, the simulation and the durable services
-- share. `EventTypes` has the event types and their lifecycle, `Statuses` the statuses, `Events` the
-- EDR, `Jobs` the projected job.
mod EventTypes
mod Statuses
mod Events
mod Jobs
unfoldable pub use EventTypes.*
unfoldable pub use Statuses.*
unfoldable pub use Events.*
unfoldable pub use Jobs.*
