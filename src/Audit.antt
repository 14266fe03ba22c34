-- ===== src/Audit.antt =====
-- backend/app/audit: the recorder of audit events.
pub mod Recorder
