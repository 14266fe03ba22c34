-- ===== src/Runtime/DeadlineCommit.antt =====
-- backend/app/runtime/deadline_commit.py: a change of status that is made as the session commits,
-- and only before a deadline. `now` is the clock at the commit.
use intelligent_agent_platfo.Base.{
  ℕ, Bool, false, ◌&&◌, not, count, ltb, leb, Option, none, some, ◌==◌,
}
use intelligent_agent_platfo.Effects.{◌>>=◌, ◌>>◌, gets, modify, raise_if}
use intelligent_agent_platfo.Database.{
  Text, Time, AgentRun, RunStatus, queued, running, waiting_approval, completed, failed, cancelled,
  Db, Exception,
}
use intelligent_agent_platfo.Runtime.Lifecycle.{set_status}

-- `deadline is not None and clock() >= deadline`
abbrev pub is_late : Option Time → Time → Bool
is_late none now = false
is_late (some deadline) now = leb deadline now

-- A number for each status, to compare two.
abbrev pub status_code : RunStatus → ℕ
status_code queued = 0
status_code running = 1
status_code waiting_approval = 2
status_code completed = 3
status_code failed = 4
status_code cancelled = 5

abbrev pub same_status : RunStatus → RunStatus → Bool
same_status a b = status_code a == status_code b

-- The row that the update reaches.
abbrev pub awaits : Text → RunStatus → Time → Time → AgentRun → Bool
awaits run_id expected_status deadline now r =
    (r.id == run_id) && (same_status r.status expected_status && ltb now deadline)

-- `commit_status_transition_before_deadline` of a run; `expired` is what the caller makes of
-- `DeadlineCommitExpired`.
unfoldable pub commit_status_transition_before_deadline :
    Text → RunStatus → RunStatus → Time → Time → Exception → Db (Unit {0})
unfolding set_status
commit_status_transition_before_deadline run_id expected_status target_status deadline now expired =
    do
      rowcount ← gets (λ s. count (awaits run_id expected_status deadline now) s.runs)
      modify (set_status (awaits run_id expected_status deadline now) target_status)
      raise_if (not (rowcount == 1)) expired
