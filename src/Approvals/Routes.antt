-- ===== src/Approvals/Routes.antt =====
-- The two routes of backend/app/approvals/router.py that decide an approval.
use mathlib.Core.Path.{subst}
use intelligent_agent_platfo.Base.{
  ℕ, ◌≡◌, ◌≢◌, ◌≤◌, ◌<◌, sym, ap, not, Option, some, find, map, count, ◌==◌, ◌∙◌, arith,
}
use intelligent_agent_platfo.Effects.{ok, err, ◌>>=◌, ◌>>◌, raise_if, pure}
use intelligent_agent_platfo.Effects.Inversion.{
  bind_ok, raise_if_ok, transaction_ok, transaction_never,
}
use intelligent_agent_platfo.Database.{
  Text, Store, RunStatus, Event, pending, approved, rejected, expired, Approval, ToolInvocation,
  approval_conflict,
}
use intelligent_agent_platfo.Conversations.Repository.{append_event}
use intelligent_agent_platfo.Conversations.Repository.Log.{append_event_ok, appended}
use intelligent_agent_platfo.Runtime.Lifecycle.{set_status, with_status}
use intelligent_agent_platfo.Approvals.{
  RequestContext, is_pending, in_scope, get_for_update, check_decider, check_pending, decide,
  decided, approve, reject, reject_found, reject_by_decider, release_run, released,
  replace_approval, approve_route, reject_route,
}
use intelligent_agent_platfo.Approvals.Decisions.{
  MayDecide, WasApproved, approve_sound, decider_lem, decide_ok,
}

pub release_run_ok :
    (a b : Approval) (s t : Store)
    → release_run a s ≡ (ok b, t)
    → (count (released a.run_id) s.runs ≡ 1)
      × (b ≡ a)
      × (t.runs ≡ map (with_status (released a.run_id) RunStatus.queued) s.runs)
      × (t.approvals ≡ s.approvals)
      × (t
          ≡ appended a.run_id (Event.run_status RunStatus.queued) (
              appended a.run_id
                (Event.approval_resolved a.id approved)
                (set_status (released a.run_id) RunStatus.queued s)))
unfolding release_run
release_run_ok a b s t h =
    let u = set_status (released a.run_id) RunStatus.queued s in
    let told = Event.approval_resolved a.id approved in
    let (v, u1, counted, rest) =
      bind_ok (raise_if (not (count (released a.run_id) s.runs == 1)) approval_conflict)
        (λ _.
          append_event a.run_id told
          >> (append_event a.run_id (Event.run_status RunStatus.queued) >> pure a))
        u h in
    let (one, same) = raise_if_ok _ approval_conflict u counted in
    let (v2, u2, first, rest2) =
      bind_ok (append_event a.run_id told)
        (λ _. append_event a.run_id (Event.run_status RunStatus.queued) >> pure a) u1 rest in
    let (v3, u3, second, last) =
      bind_ok (append_event a.run_id (Event.run_status RunStatus.queued)) (λ _. pure a) u2 rest2 in
    let w2 = append_event_ok a.run_id told u1 u2 v2 first in
    let w3 = append_event_ok a.run_id (Event.run_status RunStatus.queued) u2 u3 v3 second in
    (
      ground arith,
      ground (arith, last),
      unfold set_status in ground (arith, last, w2, w3, same),
      unfold set_status in ground (arith, last, w2, w3, same),
      ground (arith, last, w2, w3, same),
    )

-- The route that approves: a user who may decide approved a pending approval that had not expired
-- and whose arguments had not changed; exactly one run was waiting for it; the row is decided, and
-- that run is back in the queue.
pub approve_route_sound :
    (digest : Text → Text) (approval_id : Text) (context : RequestContext) (reason : Option Text)
    (now : ℕ) (s t : Store) (b : Approval)
    → approve_route digest approval_id context reason now s ≡ (ok b, t)
    → (a : Approval) × WasApproved digest approval_id context now s a
      × (b ≡ decided approved context reason now a)
      × (t.approvals ≡ (replace_approval a.id (decided approved context reason now) s).approvals)
      × (count (released a.run_id) s.runs ≡ 1)
      × (t.runs ≡ map (with_status (released a.run_id) RunStatus.queued) s.runs)
unfolding approve_route
approve_route_sound digest approval_id context reason now s t b h =
    let (c, u, made, freed) =
      bind_ok (approve digest approval_id context reason now) release_run s
        (transaction_ok (approve digest approval_id context reason now >>= release_run) s h) in
    let (a, was, result, rows, runs, events) =
      approve_sound digest approval_id context reason now s u c made in
    let (one, same, queue, kept, log) = release_run_ok c b u t freed in
    let run : c.run_id ≡ a.run_id = ap (λ x. x.run_id) result in
    (
      a,
      was,
      same ∙ result,
      kept ∙ rows,
      sym (ap (count (released a.run_id)) runs)
          ∙ subst (λ x. count (released x) u.runs ≡ 1) run one,
      subst (λ x. t.runs ≡ map (with_status (released x) RunStatus.queued) u.runs) run queue
          ∙ ap (map (with_status (released a.run_id) RunStatus.queued)) runs,
    )

pub reject_sound :
    (approval_id : Text) (context : RequestContext) (reason : Option Text) (now : ℕ) (s t : Store)
    (b : Approval)
    → reject approval_id context reason now s ≡ (ok b, t)
    → (a : Approval) × (find (in_scope approval_id context) s.approvals ≡ some a)
      × (a.status ≡ pending)
      × MayDecide approval_id context a
      × (t.approvals ≡ (replace_approval a.id (decided rejected context reason now) s).approvals)
      × (t.runs ≡ s.runs)
      × (t.events ≡ s.events)
unfolding reject
reject_sound approval_id context reason now s t b h =
    let (a, s1, got, rest) =
      bind_ok (get_for_update approval_id context) (λ a. reject_found a context reason now) s h in
    let (v, s2, checked, acted) =
      bind_ok (check_decider a context) (λ _. reject_by_decider a context reason now) s1
        (unfold reject_found in rest) in
    let (may, found, same) = decider_lem approval_id context s s1 s2 a v got checked in
    let (w, s3, pended, made) =
      bind_ok (raise_if (not (is_pending a.status)) approval_conflict)
        (λ _. decide a rejected context reason now) s2 (unfold reject_by_decider in acted) in
    let (was, same3) = raise_if_ok (not (is_pending a.status)) approval_conflict s2 pended in
    let (result, rows, runs, events) = decide_ok a b rejected context reason now s3 t made in
    let back : s3 ≡ s = same3 ∙ same in
    (
      a,
      found,
      ground arith,
      may,
      rows
          ∙ ap (λ u. (replace_approval a.id (decided rejected context reason now) u).approvals)
              back,
      runs ∙ ap (λ u. u.runs) back,
      events ∙ ap (λ u. u.events) back,
    )

-- Approving or rejecting an approval of the caller's unit and project whose status is another than
-- `pending` changes nothing at all.
pub decided_final :
    (digest : Text → Text) (approval_id : Text) (context : RequestContext) (reason : Option Text)
    (now : ℕ) (s : Store) (a : Approval)
    → find (in_scope approval_id context) s.approvals ≡ some a
    → a.status ≢ pending
    → ((approve_route digest approval_id context reason now s).1 ≡ s)
      × ((reject_route approval_id context reason now s).1 ≡ s)
unfolding approve_route reject_route
decided_final digest approval_id context reason now s a found over = (
  transaction_never (approve digest approval_id context reason now >>= release_run) s (λ b t h.
      let (c, u, made, freed) =
        bind_ok (approve digest approval_id context reason now) release_run s h in
      let (a', was, r1, r2, r3, r4) =
        approve_sound digest approval_id context reason now s u c made in
      over (ap (λ x. x.status) (same found was.found) ∙ was.was_pending)),
  transaction_never (reject approval_id context reason now) s (λ b t h.
      let (a', found', open_one, r1, r2, r3, r4) =
        reject_sound approval_id context reason now s t b h in
      over (ap (λ x. x.status) (same found found') ∙ open_one)),
)
  where
    same :
        {a' : Approval}
        → find (in_scope approval_id context) s.approvals ≡ some a
        → find (in_scope approval_id context) s.approvals ≡ some a'
        → a ≡ a'
    same p q = cc

-- The service marks an expired approval before it raises, but the route keeps nothing of that:
-- the approval stays pending, and so in the list of the pending ones.
pub expired_kept_pending :
    (digest : Text → Text) (approval_id : Text) (context : RequestContext) (reason : Option Text)
    (now : ℕ) (s : Store) (a : Approval) (i : ToolInvocation)
    → find (in_scope approval_id context) s.approvals ≡ some a
    → a.status ≡ pending
    → a.expires_at ≤ now
    → (check_pending digest a i now s
        ≡ (err approval_conflict, replace_approval a.id (λ x. record x { status = expired }) s))
      × ((approve_route digest approval_id context reason now s).1 ≡ s)
unfolding approve_route check_pending
expired_kept_pending digest approval_id context reason now s a i found waits late = (
  ground arith,
  transaction_never (approve digest approval_id context reason now >>= release_run) s (λ b t h.
      let (c, u, made, freed) =
        bind_ok (approve digest approval_id context reason now) release_run s h in
      let (a', was, r1, r2, r3, r4) =
        approve_sound digest approval_id context reason now s u c made in
      let same : a ≡ a' = cc (found, was.found) in
      let soon : now < a.expires_at = rw same was.in_time in absurd (omega arith)),
)
