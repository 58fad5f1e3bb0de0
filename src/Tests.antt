-- ===== src/Tests.antt =====
-- Runs of the model at concrete data: each theorem of the library at an input of its own.
pub mod Data
pub mod Model
pub mod Builder
pub mod Rotation
mod Lifecycle
mod Campaign
mod Candidate
mod Create
pub mod Store
