-- ===== src/Reconcile.antt =====
-- application/services/world_state_reconciliation_service.py: the state that follows from the
-- schedules at a time. `Reconcile.Status` derives the status of a route, `Reconcile.Packages` the state
-- of its packages, with the corrections of one package in `Reconcile.Repairs`.
pub mod Status
pub mod Repairs
pub mod Packages
pub mod Trucks
pub mod Updates
pub mod Routes
pub mod Frame
pub mod Recovery
pub mod Isolation
