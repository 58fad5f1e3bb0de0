-- ===== src/Model.antt =====
-- The package `internal/dkim2model`: the values, records, key owners and generations of a DKIM2
-- datasource.
pub mod Error
pub mod Names
pub mod Values
pub mod AlgorithmSet
pub mod Allocation
pub mod Instant
pub mod Crypto
pub mod KeyPair
pub mod KeyMaterial
pub mod Records
pub mod Generation
pub mod Builder
pub mod Rotation
pub mod Lifecycle
pub mod Campaign
pub mod Candidate
pub mod Eligibility
pub mod GlobalRotation
pub mod Create
