-- ===== src/Workflow.antt =====
-- The application package: internal/application/workflow.
pub mod Commands
pub mod Answers
pub mod BatchCommands
pub mod CalibrationCommands
pub mod ReleaseCommands
pub mod Service
pub mod Readiness
pub mod Queries
pub mod WorkQueue
pub mod Retries
pub mod Durability
pub mod Views
pub mod Release
pub mod Effects
pub mod Powers
