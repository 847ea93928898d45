-- ===== src/Journal.antt =====
-- The durable journal of EDRs and its projection: src/job_visibility/edr_store with the wire form of
-- src/job_visibility/outbox/serialization.py.
pub mod Wire
pub mod Parse
pub mod Tables
pub mod Projector
pub mod Reader
pub mod RoundTrip
pub mod Current
pub mod Rounds
pub mod Reachable
pub mod Rebuild
pub mod Consistency
pub mod Logs
pub mod Replays
pub mod Malformed
pub mod Sound
pub mod Progress
pub mod Liveness
pub mod Restores
pub mod Interleaving
mod Tests
