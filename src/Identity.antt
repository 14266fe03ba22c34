-- ===== src/Identity.antt =====
-- backend/app/identity: who may do what in which unit and project.
pub mod Authorization
pub mod Permits
