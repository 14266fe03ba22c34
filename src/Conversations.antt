-- ===== src/Conversations.antt =====
-- backend/app/conversations: the repository of runs, events and messages.
pub mod Dispatcher
pub mod Repository
