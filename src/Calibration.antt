-- ===== src/Calibration.antt =====
-- The domain package: internal/domain/calibration.
pub mod Errors
pub mod Types
pub mod Lifecycle
pub mod Batch
pub mod Snapshot
pub mod Sensor
pub mod Profile
pub mod Measurement
pub mod Review
pub mod Credential
pub mod Validation
pub mod Effects
