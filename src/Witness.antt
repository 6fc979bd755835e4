-- ===== src/Witness.antt =====
-- The theorems at concrete inputs, and tests of the definitions.
pub mod Memory
mod Log
mod Quorums
mod Codecs
mod Votes
mod Campaigns
mod Guards
mod Snapshots
mod Dispatches
mod Members
mod Appends
mod Registries
