-- ===== src/Lifecycle.antt =====
-- realm_core/src/lifecycle: cohorts of connections, the endpoint state machines, reconciliation.
pub mod Cohort
pub mod Manager
pub mod Reconcile
pub mod Store
pub mod Tests
