-- ===== src/Reducer.antt =====
-- The lifecycle reduction of src/job_visibility/engine.py: `reduce_visibility` and the rule handlers
-- of `VisibilityEngine` that it borrows. `Rules` has the helpers, `Handlers` a function for each
-- `_on_…` method, `Reduce` the dispatch and the reduction; the other modules prove.
pub mod Rules
pub mod Handlers
pub mod Reduce
pub mod Terminal
pub mod Version
pub mod Stamps
pub mod Retry
mod Tests
