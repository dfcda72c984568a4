-- ===== src/Tests.antt =====
-- Tests: each property at a concrete input.
mod Data
mod Queues
mod Locks
mod Lists
mod Servers
mod Texts
mod Screens
mod Activity
mod Inputs
mod Services
mod Openings
mod Races
mod Phases
mod Rights
mod Programs
mod Systems
mod Networks
