-- ===== src/Tools/Gateway.antt =====
-- backend/app/tools/gateway.py: `ToolGateway.execute` with its sessions. What it meets outside of
-- the tables is the record `ToolServices`, by the number of the step: the tool's own work, clocks,
-- fresh identifiers, JSON schemas, the table of tools, and what other sessions write before a
-- session of this one begins.
pub mod Terminal
pub mod Execution
pub mod Records
use intelligent_agent_platfo.Base.{
  ℕ, suc, ◌+◌, Bool, true, false, ◌&&◌, ◌||◌, not, Option, none, some, List, [], ◌∷◌, count, map,
  find, ltb, ◌==◌, if◌then◌else◌, is_some,
}
use intelligent_agent_platfo.Effects.{
  Result, ok, err, Action, ◌>>=◌, ◌>>◌, gets, modify, pure, raise, or_raise, raise_if, transaction,
}
use intelligent_agent_platfo.Database.{
  Text, Time, Store, AgentRun, RunStatus, ActorType, ToolInvocation, InvocationStatus, RiskLevel,
  ErrorCode, Event, AuditKey, AuditStatus, Exception, tool_runtime_error, integrity_error, Db,
  is_running,
}
use intelligent_agent_platfo.Audit.Recorder.{audit_record}
use intelligent_agent_platfo.Conversations.Repository.{
  append_event, get_run_by_id, add_tool_invocation, get_tool_invocation,
}

pub data ToolSource : Type 0 where
  builtin mcp knowledge artifact sandbox : ToolSource

pub record Tool : Type 0 where
  pub source : ToolSource
  pub risk_level : RiskLevel
  pub requires_approval : Bool

pub record ToolCall : Type 0 where
  pub id : Text
  pub name : Text
  pub arguments : Text

pub record ToolExecutionContext : Type 0 where
  pub unit_id : Text
  pub run_id : Text
  pub project_id : Text
  pub user_id : Text
  pub actor_roles : List Text

-- How the work of a tool ends: with a value, a `ToolRuntimeError`, or another exception.
pub data Answer : Type 0 where
  value : Text → Answer
  tool_error : ErrorCode → Answer
  failure : Answer

pub record ToolServices : Type 0 where
  -- `ToolStore.get_executable`
  pub get_executable : Text → Option Tool
  -- the name is a key of `BUILTIN_EXECUTORS`
  pub has_executor : Text → Bool
  -- what `_validate` raises of the arguments and of the result, if anything
  pub check_input : Tool → Text → Option ErrorCode
  pub check_output : Tool → Text → Option ErrorCode
  pub summarize : Text → Text
  -- the deadline in the snapshot of a run, if there is one
  pub snapshot_deadline : Text → Option Time
  -- SHA-256 of the arguments, and the name of the role "project_admin"
  pub digest : Text → Text
  pub project_admin : Text
  pub answer : ℕ → Answer
  pub duration_ms : ℕ → ℕ
  pub fresh : ℕ → Text
  pub clock : ℕ → ℕ → Time
  pub others : ℕ → Store → Store

pub record World : Type 0 where
  pub store : Store
  -- the number of steps
  pub tick : ℕ
  -- the calls whose tool was set to work, the last one first: run and call
  pub carried_out : List (Text × Text)

abbrev pub Io : Type 0 → Type 0
Io = Action World Exception

abbrev pub refuse_when : Bool → ErrorCode → Db (Unit {0})
refuse_when b code = raise_if b (tool_runtime_error code)

-- `_lock_active_run`, of the status `running`
unfoldable pub lock_active_run : Text → Db AgentRun
lock_active_run run_id = do
  found ← gets (get_run_by_id run_id)
  run ← or_raise found (tool_runtime_error ErrorCode.run_not_active)
  refuse_when (not (is_running run.status)) ErrorCode.run_not_active
  pure run

-- The insertion, with the unique constraint on run and call.
unfoldable pub insert_invocation : ToolInvocation → Db (Unit {0})
unfolding add_tool_invocation
insert_invocation invocation = do
  existing ← gets (get_tool_invocation invocation.run_id invocation.tool_call_id)
  raise_if (is_some existing) integrity_error
  add_tool_invocation invocation

-- The event and the audit event of a call that starts.
unfoldable pub announce_started : ToolInvocation → ToolExecutionContext → Db (Unit {0})
announce_started invocation context = do
  append_event invocation.run_id (Event.tool_started invocation.id)
  audit_record (record {
    idempotency_key = AuditKey.tool_started invocation.id;
    unit_id = some context.unit_id;
    project_id = some context.project_id;
    user_id = some context.user_id;
    actor_roles = context.actor_roles;
    status = AuditStatus.started;
    risk_level = RiskLevel.low;
    run_id = context.run_id;
    resource_id = invocation.tool_id;
    error_code = none;
    duration_ms = none;
  })

-- `_commit_started`
unfoldable pub commit_started : ToolInvocation → ToolExecutionContext → Db (Unit {0})
unfolding lock_active_run insert_invocation announce_started
commit_started invocation context = do
  _ ← lock_active_run invocation.run_id
  insert_invocation invocation
  announce_started invocation context

module _ (services : ToolServices) where
  -- One session: other sessions may have written before it begins.
  unfoldable pub session : {A : Type 0} → (ℕ → Db A) → Io A
  session m w =
      let (r, s) = transaction (m w.tick) (services.others w.tick w.store) in
      (r, record w { store = s; tick = suc w.tick })

  -- The work of a tool, which is not undone.
  unfoldable pub carry_out : Text → Text → Io Answer
  carry_out run_id call_id w = (
    ok (services.answer w.tick),
    record w { tick = suc w.tick; carried_out = (run_id, call_id) ∷ w.carried_out },
  )

-- `except Exception as error: …`
abbrev pub catch : {A : Type 0} → Io A → (Exception → Io A) → Io A
catch m handler w = let (r, v) = m w in elim r [ ok a ↦ (ok a, v) | err e ↦ handler e v ]
