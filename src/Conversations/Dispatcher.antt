-- ===== src/Conversations/Dispatcher.antt =====
-- backend/app/conversations/dispatcher.py: what `_execute_approved_tool` does when the approved call
-- of a run has raised a `ToolRuntimeError`. The call itself is not modelled.
use intelligent_agent_platfo.Base.{count, ◌==◌, if◌then◌else◌, true}
use intelligent_agent_platfo.Effects.{◌>>=◌, ◌>>◌, gets, modify, pure, transaction}
use intelligent_agent_platfo.Database.{Text, RunStatus, ErrorCode, Event, Db}
use intelligent_agent_platfo.Conversations.Repository.{append_event}
use intelligent_agent_platfo.Runtime.Lifecycle.{eligible, set_status}

-- `update(AgentRun).where(…)`: its condition is that of `_finish` for `failed`.
unfoldable pub fail_session : Text → ErrorCode → Db (Unit {0})
unfolding set_status
fail_session run_id code = do
  rowcount ← gets (λ s. count (eligible run_id RunStatus.failed true) s.runs)
  modify (set_status (eligible run_id RunStatus.failed true) RunStatus.failed)
  if rowcount == 0
      then pure tt
      else append_event run_id (Event.run_error code)
        >> append_event run_id (Event.run_status RunStatus.failed)

unfoldable pub fail_approved_run : Text → ErrorCode → Db (Unit {0})
unfolding fail_session
fail_approved_run run_id code = transaction (fail_session run_id code)
