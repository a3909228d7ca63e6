-- ===== src/Domain.antt =====
-- domain/: the records of a run and their validation.
pub mod Float
pub mod Json
pub mod Usage
pub mod Limits
pub mod Status
pub mod Event
pub mod Parse
pub mod Manifest
pub mod Samples
