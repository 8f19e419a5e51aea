-- ===== src/Tests.antt =====
-- The theorems at concrete inputs, and runs of the model.
mod Library
mod Parser
mod Pages
mod Server
mod Connection
mod Upstream
mod Accounts
mod Start
mod Forward
mod Settings
mod Locations
mod Sites
mod Visits
