-- ===== src/Tests.antt =====
-- The theorems at concrete inputs, and runs of the definitions.
mod Access
mod Commits
mod Device
mod Domain
mod Facility
mod Findings
mod Gateway
mod Projections
mod Requests
mod Sync
mod Scope
mod Server
mod Sheets
mod Visits
