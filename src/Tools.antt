-- ===== src/Tools.antt =====
-- backend/app/tools: the calls of tools that an agent makes.
pub mod Gateway
pub mod Summary
