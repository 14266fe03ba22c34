-- ===== src/Tests/Tools.antt =====
-- Tool calls of a running agent.
use mathlib.Core.Bool.{decide}
use intelligent_agent_platfo.Base.{◌+◌, ◌≡◌, refl, true, false, none, some, [], ◌∷◌, arith}
use intelligent_agent_platfo.Effects.{Result, ok, err}
use intelligent_agent_platfo.Database.{
  AuditKey-discrete, RiskLevel, ErrorCode, Exception, tool_runtime_error,
}
use intelligent_agent_platfo.Audit.Recorder.{audit_record}
use intelligent_agent_platfo.Conversations.Repository.{
  append_event, get_run_by_id, max_sequence, get_tool_invocation,
}
use intelligent_agent_platfo.Tools.Gateway.{
  ToolSource, Tool, ToolCall, ToolExecutionContext, ToolServices, Answer, World, commit_started,
}
use intelligent_agent_platfo.Tools.Gateway.Terminal.{commit_finished}
use intelligent_agent_platfo.Tools.Gateway.Execution.{ToolExecutionResult, execute}
use intelligent_agent_platfo.Tools.Gateway.Execution.Sessions.{IsOnce}
use intelligent_agent_platfo.Tools.Gateway.Execution.Once.{execute-IsOnce}
use intelligent_agent_platfo.Tests.Data.{base}

abbrev pub lookup_tool : Tool
lookup_tool = record {
  source = ToolSource.builtin;
  risk_level = RiskLevel.low;
  requires_approval = false;
}

abbrev pub services : ToolServices
services = record {
  get_executable = λ _. some lookup_tool;
  has_executor = λ _. true;
  check_input = λ _ _. none;
  check_output = λ _ _. none;
  summarize = λ arguments. arguments;
  snapshot_deadline = λ _. none;
  digest = λ arguments. arguments;
  project_admin = 9;
  answer = λ _. Answer.value 42;
  duration_ms = λ _. 3;
  fresh = λ n. n + 70;
  clock = λ n m. n + m;
  others = λ _ s. s;
}

abbrev pub context : ToolExecutionContext
context = record { unit_id = 1; run_id = 11; project_id = 2; user_id = 3; actor_roles = [] }

abbrev pub lookup_call : ToolCall
lookup_call = record { id = 21; name = 31; arguments = 41 }

abbrev idle : World
idle = record { store = base; tick = 0; carried_out = [] }

idle-IsOnce : IsOnce idle
idle-IsOnce run_id call_id = ground arith

abbrev perform : World → Result Exception ToolExecutionResult × World
perform = execute services lookup_call context (31 ∷ [])

-- The tool is set to work, and a second execution of the call is refused.
performed : (perform idle).0 ≡ ok (record { invocation_id = 70; result = 42 })
unfolding execute get_tool_invocation get_run_by_id max_sequence append_event audit_record
    commit_started commit_finished
performed = refl

repeated : (perform (perform idle).1).0 ≡ err (tool_runtime_error ErrorCode.tool_duplicate_call)
unfolding execute get_tool_invocation get_run_by_id max_sequence append_event audit_record
    commit_started commit_finished decide AuditKey-discrete
repeated = refl

execute-IsOnce_example : IsOnce (perform idle).1
execute-IsOnce_example =
    execute-IsOnce services (λ n run_id call_id s there. there) lookup_call context (31 ∷ []) idle
      idle-IsOnce
