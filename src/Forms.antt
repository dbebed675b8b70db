-- ===== src/Forms.antt =====
-- The tax forms: domain/forms.
pub mod ReadModel
pub mod Form8949
pub mod ScheduleD
pub mod Gate
pub mod Activity
pub mod Reconcile
