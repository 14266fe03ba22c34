-- ===== src/Approvals.antt =====
-- backend/app/approvals: the approval of tool calls by a second person, service.py and the two
-- routes of router.py that decide. `digest` is the SHA-256 of the JSON of the arguments.
pub mod Decisions
pub mod Routes
use intelligent_agent_platfo.Base.{
  ℕ, ◌+◌, ◌*◌, Bool, true, false, ◌&&◌, ◌||◌, not, Option, none, some, List, [], ◌∷◌, find, filterb,
  map, count, elem, leb, ◌==◌, if◌then◌else◌, is_some,
}
use intelligent_agent_platfo.Effects.{
  ◌>>=◌, ◌>>◌, gets, modify, pure, raise, or_raise, raise_if, transaction,
}
use intelligent_agent_platfo.Database.{
  Text, Time, Store, RunStatus, InvocationStatus, ApprovalStatus, pending, approved, rejected,
  expired, Approval, RiskLevel, AgentRun, ToolInvocation, AuditKey, AuditStatus, Event,
  approval_not_found, approval_forbidden, approval_conflict, Db, is_waiting_approval,
}
use intelligent_agent_platfo.Audit.Recorder.{audit_record}
use intelligent_agent_platfo.Conversations.Repository.{append_event}
use intelligent_agent_platfo.Runtime.Lifecycle.{set_status}

-- `RequestContext`, what the approvals read of it.
pub record RequestContext : Type 0 where
  pub user_id : Text
  pub project_id : Text
  pub unit_id : Text
  pub roles : List Text

abbrev pub is_pending : ApprovalStatus → Bool
is_pending pending = true
is_pending _ = false

abbrev pub is_approved : ApprovalStatus → Bool
is_approved approved = true
is_approved _ = false

abbrev pub is_waiting : InvocationStatus → Bool
is_waiting InvocationStatus.waiting_approval = true
is_waiting _ = false

-- `_audit`
unfoldable pub audit : Approval → RequestContext → ApprovalStatus → AuditStatus → Db (Unit {0})
audit approval context action status = audit_record (record {
  idempotency_key = AuditKey.approval_action approval.id action;
  unit_id = some approval.unit_id;
  project_id = some approval.project_id;
  user_id = some context.user_id;
  actor_roles = context.roles;
  status = status;
  risk_level = approval.risk_level;
  run_id = approval.run_id;
  resource_id = approval.id;
  error_code = none;
  duration_ms = none;
})

-- 24 hours
abbrev pub day : Time
day = 86400000000

abbrev expiry : Option Time → Time → Time
expiry none now = now + day
expiry (some t) now = t

module _ (digest : Text → Text) where
  -- `create_request`, with the fresh identifier and the reading of the clock.
  unfoldable pub create_request :
      AgentRun
      → ToolInvocation
      → RequestContext
      → RiskLevel
      → Option Time
      → Text
      → Text
      → Time
      → Db Approval
  unfolding audit
  create_request run invocation context risk_level expires_at assignee_role fresh now = do
    existing ← gets (λ s. find (λ a. a.invocation_id == invocation.id) s.approvals)
    raise_if (is_some existing) approval_conflict
    let approval : Approval = record {
      id = fresh;
      run_id = run.id;
      invocation_id = invocation.id;
      tool_id = invocation.tool_id;
      unit_id = context.unit_id;
      project_id = context.project_id;
      requester_id = context.user_id;
      assignee_role = assignee_role;
      risk_level = risk_level;
      arguments_digest = digest invocation.arguments_summary;
      status = pending;
      expires_at = expiry expires_at now;
      decided_by = none;
      decision_reason = none;
      decided_at = none;
    }
    modify (λ s. record s { approvals = approval ∷ s.approvals })
    audit approval context pending AuditStatus.started
    pure approval

-- The row that `_get_for_update` selects.
abbrev pub in_scope : Text → RequestContext → Approval → Bool
in_scope approval_id context a =
    (a.id == approval_id) && (a.unit_id == context.unit_id) && (a.project_id == context.project_id)

unfoldable pub get_for_update : Text → RequestContext → Db Approval
get_for_update approval_id context = do
  found ← gets (λ s. find (in_scope approval_id context) s.approvals)
  or_raise found approval_not_found

-- `get`
unfoldable pub get : Text → RequestContext → Db Approval
unfolding get_for_update
get approval_id context = do
  approval ← get_for_update approval_id context
  raise_if
      (not (approval.requester_id == context.user_id)
        && not (elem approval.assignee_role context.roles))
      approval_not_found
  pure approval

-- `list_pending`, in no particular order.
unfoldable pub list_pending : RequestContext → Store → List Approval
list_pending context s =
    filterb
      (λ a.
        (a.unit_id == context.unit_id)
        && (a.project_id == context.project_id)
        && is_pending a.status
        && elem a.assignee_role context.roles)
      s.approvals

-- `_check_decider`
unfoldable pub check_decider : Approval → RequestContext → Db (Unit {0})
check_decider approval context =
    raise_if
      (not (elem approval.assignee_role context.roles) || context.user_id == approval.requester_id)
      approval_forbidden

-- `approval.… = …` on the loaded row.
abbrev pub replace_approval : Text → (Approval → Approval) → Store → Store
replace_approval id f s = record s {
  approvals = map (λ a. if a.id == id then f a else a) s.approvals;
}

module _ (digest : Text → Text) where
  -- `_check_pending`
  unfoldable pub check_pending : Approval → ToolInvocation → Time → Db (Unit {0})
  check_pending approval invocation now = do
    raise_if (not (is_pending approval.status)) approval_conflict
    if leb approval.expires_at now
        then (do
          modify (replace_approval approval.id (λ a. record a { status = expired }))
          raise approval_conflict)
        else raise_if (not (digest invocation.arguments_summary == approval.arguments_digest))
            approval_conflict

abbrev pub decided : ApprovalStatus → RequestContext → Option Text → Time → Approval → Approval
decided status context reason now a = record a {
  status = status;
  decided_by = some context.user_id;
  decision_reason = reason;
  decided_at = some now;
}

-- The lines that `approve` and `reject` share.
unfoldable pub decide :
    Approval → ApprovalStatus → RequestContext → Option Text → Time → Db Approval
unfolding audit
decide approval status context reason now = do
  modify (replace_approval approval.id (decided status context reason now))
  audit approval context status AuditStatus.succeeded
  pure (decided status context reason now approval)

module _ (digest : Text → Text) where
  -- `approve`, from the look-up of the invocation on.
  unfoldable pub approve_by_decider : Approval → RequestContext → Option Text → Time → Db Approval
  approve_by_decider approval context reason now = do
    found ← gets (λ s. find (λ i. i.id == approval.invocation_id) s.invocations)
    invocation ← or_raise found approval_conflict
    check_pending digest approval invocation now
    decide approval approved context reason now

  unfoldable pub approve_found : Approval → RequestContext → Option Text → Time → Db Approval
  unfolding approve_by_decider
  approve_found approval context reason now = do
    check_decider approval context
    approve_by_decider approval context reason now

  unfoldable pub approve : Text → RequestContext → Option Text → Time → Db Approval
  unfolding approve_found
  approve approval_id context reason now = do
    approval ← get_for_update approval_id context
    approve_found approval context reason now

  -- `prepare_execution`
  unfoldable pub prepare_execution : Text → RequestContext → Db (Approval × ToolInvocation)
  unfolding get_for_update
  prepare_execution approval_id context = do
    approval ← get_for_update approval_id context
    raise_if (not (is_approved approval.status)) approval_conflict
    found ← gets (λ s. find (λ i. i.id == approval.invocation_id) s.invocations)
    invocation ← or_raise found approval_conflict
    raise_if (not (is_waiting invocation.status)) approval_conflict
    raise_if (not (digest invocation.arguments_summary == approval.arguments_digest))
        approval_conflict
    pure (approval, invocation)

unfoldable pub reject_by_decider : Approval → RequestContext → Option Text → Time → Db Approval
reject_by_decider approval context reason now = do
  raise_if (not (is_pending approval.status)) approval_conflict
  decide approval rejected context reason now

unfoldable pub reject_found : Approval → RequestContext → Option Text → Time → Db Approval
unfolding reject_by_decider
reject_found approval context reason now = do
  check_decider approval context
  reject_by_decider approval context reason now

unfoldable pub reject : Text → RequestContext → Option Text → Time → Db Approval
unfolding reject_found
reject approval_id context reason now = do
  approval ← get_for_update approval_id context
  reject_found approval context reason now

-- The run that an approval releases.
abbrev pub released : Text → AgentRun → Bool
released run_id r = (r.id == run_id) && is_waiting_approval r.status

-- `approve_approval`, after the service: the run goes back into the queue.
unfoldable pub release_run : Approval → Db Approval
unfolding set_status
release_run approval = do
  rowcount ← gets (λ s. count (released approval.run_id) s.runs)
  modify (set_status (released approval.run_id) RunStatus.queued)
  raise_if (not (rowcount == 1)) approval_conflict
  append_event approval.run_id (Event.approval_resolved approval.id approved)
  append_event approval.run_id (Event.run_status RunStatus.queued)
  pure approval

module _ (digest : Text → Text) where
  -- The route: a conflict is rolled back, and another error leaves before the commit.
  unfoldable pub approve_route : Text → RequestContext → Option Text → Time → Db Approval
  unfolding approve release_run
  approve_route approval_id context reason now =
      transaction (approve digest approval_id context reason now >>= release_run)

-- `reject_approval`
unfoldable pub reject_route : Text → RequestContext → Option Text → Time → Db Approval
unfolding reject
reject_route approval_id context reason now = transaction (reject approval_id context reason now)
