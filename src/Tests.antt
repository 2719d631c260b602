-- ===== src/Tests.antt =====
-- Sample data, and the theorems at inputs that meet their hypotheses.
mod Samples
mod Domain
mod Store
mod Service
mod Queries
mod Cursors
mod Queue
mod Http
mod Durability
mod Lines
mod Process
mod Scenario
mod Server
mod Selfcheck
mod Exchanges
