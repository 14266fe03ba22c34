-- ===== src/Approvals/Decisions.antt =====
-- Deciders and decisions of backend/app/approvals/service.py.
use mathlib.Core.Path.{subst}
use intelligent_agent_platfo.Base.{
  ℕ, ◌≡◌, ◌≢◌, ◌<◌, ap, inl, inr, Bool, true, Option, some, List, [], ◌∷◌, find, elem, ◌==◌, ◌∙◌,
  arith, Bool-cases,
}
use intelligent_agent_platfo.Effects.{ok, ◌>>◌, pure, or_raise}
use intelligent_agent_platfo.Effects.Inversion.{bind_ok, or_raise_ok, raise_if_ok}
use intelligent_agent_platfo.Database.{
  Text, Store, ApprovalStatus, pending, approved, Approval, ToolInvocation, approval_not_found,
  approval_conflict, AuditStatus,
}
use intelligent_agent_platfo.Audit.Recorder.{audit_record_ok}
use intelligent_agent_platfo.Approvals.{
  RequestContext, in_scope, get_for_update, check_decider, check_pending, decide, decided, approve,
  approve_found, approve_by_decider, replace_approval, audit,
}

-- A user may decide an approval of the project: one who has the role that it is assigned to, and
-- has not asked for it.
pub record MayDecide (approval_id : Text) (context : RequestContext) (a : Approval) : Type 0 where
  pub named : a.id ≡ approval_id
  pub same_unit : a.unit_id ≡ context.unit_id
  pub same_project : a.project_id ≡ context.project_id
  pub has_role : elem a.assignee_role context.roles ≡ true
  pub second_person : context.user_id ≢ a.requester_id

find-passes {ℓ} :
    {A : Type ℓ} (p : A → Bool) (xs : List A) (x : A) → find p xs ≡ some x → p x ≡ true
find-passes p [] x h = cc
find-passes p (y ∷ ys) x h = elim (Bool-cases (p y)) [
  | inl hit ↦ ground arith
  | inr miss ↦ ground (arith, find-passes p ys x)
]

pub decider_lem :
    (approval_id : Text) (context : RequestContext) (s t u : Store) (a : Approval) (v : Unit {0})
    → get_for_update approval_id context s ≡ (ok a, t)
    → check_decider a context t ≡ (ok v, u)
    → MayDecide approval_id context a
      × (find (in_scope approval_id context) s.approvals ≡ some a)
      × (u ≡ s)
unfolding get_for_update check_decider
decider_lem approval_id context s t u a v got checked =
    let (found, same) =
      or_raise_ok (find (in_scope approval_id context) s.approvals) approval_not_found s got in
    let (allowed, after) = raise_if_ok _ _ t checked in
    let passes = find-passes (in_scope approval_id context) s.approvals a found in
    (ground arith, found, after ∙ same)

check_pending_ok :
    (digest : Text → Text) (a : Approval) (i : ToolInvocation) (now : ℕ) (s t : Store)
    (v : Unit {0})
    → check_pending digest a i now s ≡ (ok v, t)
    → (a.status ≡ pending)
      × (now < a.expires_at)
      × (digest i.arguments_summary ≡ a.arguments_digest)
      × (t ≡ s)
unfolding check_pending
check_pending_ok digest a i now s t v h = ground arith

-- What a decision writes: the row of the approval, and nothing of the runs and their events.
pub decide_ok :
    (a b : Approval) (status : ApprovalStatus) (context : RequestContext) (reason : Option Text)
    (now : ℕ) (s t : Store)
    → decide a status context reason now s ≡ (ok b, t)
    → (b ≡ decided status context reason now a)
      × (t.approvals ≡ (replace_approval a.id (decided status context reason now) s).approvals)
      × (t.runs ≡ s.runs)
      × (t.events ≡ s.events)
unfolding decide
decide_ok a b status context reason now s t h =
    let (v, u, recorded, last) =
      bind_ok (audit a context status AuditStatus.succeeded)
        (λ _. pure (decided status context reason now a))
        (replace_approval a.id (decided status context reason now) s) h in
    let (audits, written) =
      audit_record_ok _ (replace_approval a.id (decided status context reason now) s) u v
        (unfold audit in recorded) in
    (
      ground (arith, last),
      ground (arith, last, written),
      ground (arith, last, written),
      ground (arith, last, written),
    )

-- What an approval that succeeds had before it.
pub record WasApproved (digest : Text → Text) (approval_id : Text) (context : RequestContext)
    (now : ℕ) (s : Store) (a : Approval) : Type 0 where
  pub found : find (in_scope approval_id context) s.approvals ≡ some a
  pub decider : MayDecide approval_id context a
  pub was_pending : a.status ≡ pending
  pub in_time : now < a.expires_at
  pub invocation : ToolInvocation
  pub called : find (λ i. i.id == a.invocation_id) s.invocations ≡ some invocation
  pub unchanged : digest invocation.arguments_summary ≡ a.arguments_digest

-- A successful `approve` is the decision of a user who may decide, on a pending approval that has
-- not expired and whose arguments have not changed; it writes that row, and no run and no event.
pub approve_sound :
    (digest : Text → Text) (approval_id : Text) (context : RequestContext) (reason : Option Text)
    (now : ℕ) (s t : Store) (b : Approval)
    → approve digest approval_id context reason now s ≡ (ok b, t)
    → (a : Approval) × WasApproved digest approval_id context now s a
      × (b ≡ decided approved context reason now a)
      × (t.approvals ≡ (replace_approval a.id (decided approved context reason now) s).approvals)
      × (t.runs ≡ s.runs)
      × (t.events ≡ s.events)
unfolding approve
approve_sound digest approval_id context reason now s t b h =
    let (a, s1, got, rest) =
      bind_ok (get_for_update approval_id context) (λ a. approve_found digest a context reason now)
        s h in
    let (v, s2, checked, acted) =
      bind_ok (check_decider a context) (λ _. approve_by_decider digest a context reason now) s1
        (unfold approve_found in rest) in
    let (may, found, same) = decider_lem approval_id context s s1 s2 a v got checked in
    let (i, s3, called, passed) =
      bind_ok (or_raise (find (λ i. i.id == a.invocation_id) s2.invocations) approval_conflict)
        (λ i. check_pending digest a i now >> decide a approved context reason now) s2
        (unfold approve_by_decider in acted) in
    let (there, same3) =
      or_raise_ok (find (λ i. i.id == a.invocation_id) s2.invocations) approval_conflict s2
        called in
    let (w, s4, pended, made) =
      bind_ok (check_pending digest a i now) (λ _. decide a approved context reason now) s3
        passed in
    let (was, timely, digested, same4) = check_pending_ok digest a i now s3 s4 w pended in
    let (result, rows, runs, events) = decide_ok a b approved context reason now s4 t made in
    let back : s4 ≡ s = same4 ∙ same3 ∙ same in
    (
      a,
      record {
        found = found;
        decider = may;
        was_pending = was;
        in_time = timely;
        invocation = i;
        called =
            subst (λ (u : Store). find (λ i. i.id == a.invocation_id) u.invocations ≡ some i) same
              there;
        unchanged = digested;
      },
      result,
      rows
          ∙ ap (λ u. (replace_approval a.id (decided approved context reason now) u).approvals)
              back,
      runs ∙ ap (λ u. u.runs) back,
      events ∙ ap (λ u. u.events) back,
    )
