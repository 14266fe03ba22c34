-- ===== src/Tests/Approvals.antt =====
-- Approvals at concrete inputs: one that waits, one that was decided.
use intelligent_agent_platfo.Base.{◌≡◌, ◌≢◌, ◌+◌, refl, false, none, [], ◌∷◌, map, count, arith}
use intelligent_agent_platfo.Effects.{ok, err}
use intelligent_agent_platfo.Database.{
  Text, Store, AgentRun, RunStatus, Approval, ApprovalStatus, RiskLevel, ToolInvocation,
  InvocationStatus, approval_conflict,
}
use intelligent_agent_platfo.Audit.Recorder.{audit_record}
use intelligent_agent_platfo.Conversations.Repository.{append_event}
use intelligent_agent_platfo.Runtime.Lifecycle.{with_status}
use intelligent_agent_platfo.Approvals.{
  RequestContext, check_pending, decided, reject, replace_approval, approve_route, reject_route,
  released, get_for_update, check_decider, decide, release_run,
}
use intelligent_agent_platfo.Approvals.Decisions.{WasApproved}
use intelligent_agent_platfo.Approvals.Routes.{
  approve_route_sound, decided_final, expired_kept_pending,
}
use intelligent_agent_platfo.Tests.Data.{queued_run, base}

abbrev call : ToolInvocation
call = record {
  id = 20;
  run_id = 10;
  tool_call_id = 1;
  tool_id = 2;
  is_script = false;
  status = InvocationStatus.waiting_approval;
  arguments_summary = 6;
  error_code = none;
  duration_ms = none;
  created_at = 3;
  completed_at = none;
}

abbrev digest : Text → Text
digest t = t + 100

abbrev waiting : Approval
waiting = record {
  id = 30;
  run_id = 10;
  invocation_id = 20;
  tool_id = 2;
  unit_id = 1;
  project_id = 2;
  requester_id = 3;
  assignee_role = 8;
  risk_level = RiskLevel.high;
  arguments_digest = 106;
  status = ApprovalStatus.pending;
  expires_at = 50;
  decided_by = none;
  decision_reason = none;
  decided_at = none;
}

abbrev closed : Approval
closed = record waiting { id = 31; status = ApprovalStatus.rejected }

abbrev parked : AgentRun
parked = record queued_run { status = RunStatus.waiting_approval }

abbrev desk : Store
desk = record base {
  runs = parked ∷ [];
  events = [];
  invocations = call ∷ [];
  approvals = waiting ∷ closed ∷ [];
}

abbrev lead : RequestContext
lead = record { user_id = 4; project_id = 2; unit_id = 1; roles = 8 ∷ [] }

abbrev after_approve : Store
after_approve = (approve_route digest 30 lead none 40 desk).1

approved_run :
    approve_route digest 30 lead none 40 desk
    ≡ (ok (decided ApprovalStatus.approved lead none 40 waiting), after_approve)
unfolding approve_route get_for_update check_decider check_pending decide audit_record release_run
    append_event
approved_run = refl

approve_route_sound_example :
    (a : Approval) × WasApproved digest 30 lead 40 desk a
    × (decided ApprovalStatus.approved lead none 40 waiting
        ≡ decided ApprovalStatus.approved lead none 40 a)
    × (after_approve.approvals
        ≡ (replace_approval a.id (decided ApprovalStatus.approved lead none 40) desk).approvals)
    × (count (released a.run_id) desk.runs ≡ 1)
    × (after_approve.runs ≡ map (with_status (released a.run_id) RunStatus.queued) desk.runs)
approve_route_sound_example =
    approve_route_sound digest 30 lead none 40 desk after_approve
      (decided ApprovalStatus.approved lead none 40 waiting) approved_run

abbrev after_reject : Store
after_reject = (reject 30 lead none 60 desk).1

closed-not-pending : closed.status ≢ ApprovalStatus.pending
closed-not-pending h = cc

decided_final_example :
    ((approve_route digest 31 lead none 40 desk).1 ≡ desk)
    × ((reject_route 31 lead none 40 desk).1 ≡ desk)
decided_final_example = decided_final digest 31 lead none 40 desk closed refl closed-not-pending

expired_kept_pending_example :
    (check_pending digest waiting call 70 desk ≡ (
      err approval_conflict,
      replace_approval 30 (λ x. record x { status = ApprovalStatus.expired }) desk,
    ))
    × ((approve_route digest 30 lead none 70 desk).1 ≡ desk)
expired_kept_pending_example =
    expired_kept_pending digest 30 lead none 70 desk waiting call refl refl (omega arith)
