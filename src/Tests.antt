-- ===== src/Tests.antt =====
-- Examples: the theorems at concrete inputs, and the state that these start from.
mod Fixtures
mod Names
mod Flows
mod Wizard
mod Setup
mod Agents
mod Members
mod Sessions
mod Labels
mod Records
