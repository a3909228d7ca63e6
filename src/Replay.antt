-- ===== src/Replay.antt =====
-- runtime/replay.py: verification of the event chain and the replay of one run's stream.
-- `State` has the data, `Payload` the readers of payload fields, `Chain` the hash chain,
-- `Lifecycle`, `Requests` and `Artifacts` one function for each event type, and `Stream` the loop.
pub mod State
pub mod Payload
pub mod Chain
pub mod Lifecycle
pub mod Requests
pub mod Artifacts
pub mod Stream
pub mod Balance
pub mod Steps
pub mod Accounts
pub mod Soundness
pub mod Verdict
pub mod Final
pub mod PayloadRaises
pub mod Raises
pub mod Results
pub mod Evaluate
mod Tests
