-- ===== src/Tests.antt =====
-- The theorems at concrete inputs.
mod Data
mod Events
mod Flights
mod Planning
mod Wire
mod Times
mod Dialogues
mod Reactions
mod Plans
mod Kb
mod Queries
mod Fights
