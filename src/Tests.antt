-- ===== src/Tests.antt =====
-- Concrete inputs: what the definitions compute on them, and the theorems at them.
mod Journeys
mod Fleet
mod Transitions
mod Reconciled
mod Trucks
mod Heartbeats
mod Customers
mod Registry
mod Assignments
mod Found
mod Newcomer
mod Parcels
