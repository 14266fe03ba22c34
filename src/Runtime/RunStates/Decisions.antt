-- ===== src/Runtime/RunStates/Decisions.antt =====
-- The decisions on approvals as steps of the machine.
use mathlib.Core.Path.{subst}
use intelligent_agent_platfo.Base.{
  ◌≡◌, refl, sym, ap, ◌∙◌, inl, inr, Bool, true, false, Option, none, some, arith, map, Bool-cases,
}
use intelligent_agent_platfo.Effects.{ok, ◌>>=◌}
use intelligent_agent_platfo.Effects.Hoare.{transaction_keeps}
use intelligent_agent_platfo.Effects.Inversion.{Outcome-of_ok, bind_ok}
use intelligent_agent_platfo.Database.{
  Text, Time, Store, AgentRun, Approval, RunStatus, Event, is_terminal, approved,
}
use intelligent_agent_platfo.Conversations.Repository.Log.{appended, appended-IsDense}
use intelligent_agent_platfo.Runtime.Lifecycle.{with_status, set_status}
use intelligent_agent_platfo.Runtime.Lifecycle.Frame.{
  is_verdict, verdicts, Frame, verdicts-appended,
}
use intelligent_agent_platfo.Runtime.Lifecycle.Rows.{
  find_run, updated, find_run-map, count-has_id-map,
}
use intelligent_agent_platfo.Runtime.Lifecycle.Invariant.{IsConsistent, announcements}
use intelligent_agent_platfo.Approvals.{
  RequestContext, approve, approve_route, reject, reject_route, release_run, released,
}
use intelligent_agent_platfo.Approvals.Decisions.{approve_sound}
use intelligent_agent_platfo.Approvals.Routes.{release_run_ok, reject_sound}
use intelligent_agent_platfo.Runtime.RunStates.{Step}
use intelligent_agent_platfo.Runtime.RunStates.Moves.{Moved, Moved-same, Moved-updated}

-- An update from a status before the end to another one, with no announcement of an end.
pub IsConsistent-kept :
    (p : AgentRun → Bool) (status : RunStatus) (s t : Store)
    → is_terminal status ≡ false
    → ((id : Text) (r : AgentRun)
        → find_run id s.runs ≡ some r
        → p r ≡ true
        → is_terminal r.status ≡ false)
    → IsConsistent s
    → Frame (map (with_status p status) s.runs) (λ id. verdicts id s.events) t
    → IsConsistent t
unfolding updated
IsConsistent-kept p status s t early live h (runs, dense, seen) = record {
  dense = dense;
  keyed = λ id. rw (runs, count-has_id-map p status id s.runs) (h.keyed id);
  announced = λ id.
      rw (runs, seen id, h.announced id, find_run-map p status id s.runs)
        (kept (find_run id s.runs) (live id));
}
  where
    kept :
        (o : Option AgentRun)
        → ((r : AgentRun) → o ≡ some r → p r ≡ true → is_terminal r.status ≡ false)
        → announcements o ≡ announcements (updated p status o)
    kept none early_one = refl
    kept (some r) early_one = elim (Bool-cases (p r)) [
      | inl hit ↦ ground (arith, early_one r refl hit)
      | inr miss ↦ rw miss refl
    ]

waiting_step :
    (run_id : Text) (r : AgentRun)
    → released run_id r ≡ true
    → r.status ≡ RunStatus.waiting_approval
waiting_step run_id r h = ground arith

verdicts_quiet :
    (run_id : Text) (event : Event) (s : Store) (id : Text)
    → is_verdict event ≡ false
    → verdicts id (appended run_id event s).events ≡ verdicts id s.events
verdicts_quiet run_id event s id quiet = ground (arith, verdicts-appended run_id event s id)

module _ (digest : Text → Text) (approval_id : Text) (context : RequestContext)
    (reason : Option Text) (now : Time) where
  approve-Frame :
      (b : Approval) (s t : Store)
      → IsConsistent s
      → (approve digest approval_id context reason now >>= release_run) s ≡ (ok b, t)
      → (run_id : Text) × Frame
          (map (with_status (released run_id) RunStatus.queued) s.runs)
          (λ id. verdicts id s.events)
          t
  unfolding set_status
  approve-Frame b s t h done =
      let (c, u, made, freed) =
        bind_ok (approve digest approval_id context reason now) release_run s done in
      let (a, was, result, rows, runs, events) =
        approve_sound digest approval_id context reason now s u c made in
      let (one, same, queue, kept, log) = release_run_ok c b u t freed in
      let told = Event.approval_resolved c.id approved in
      let waited = set_status (released c.run_id) RunStatus.queued u in
      let first = appended c.run_id told waited in
      (
        c.run_id,
        (
          queue ∙ ap (map (with_status (released c.run_id) RunStatus.queued)) runs,
          rw log (
              appended-IsDense c.run_id (Event.run_status RunStatus.queued) first
                (appended-IsDense c.run_id told waited (rw events h.dense))),
          λ id.
              ap (λ (x : Store). verdicts id x.events) log
              ∙ verdicts_quiet c.run_id (Event.run_status RunStatus.queued) first id refl
              ∙ verdicts_quiet c.run_id told waited id refl
              ∙ ap (verdicts id) events,
        ),
      )

  pub approve-Moved :
      (s : Store)
      → IsConsistent s
      → Moved s (approve_route digest approval_id context reason now s).1
  unfolding approve_route
  approve-Moved s h =
      let body = approve digest approval_id context reason now >>= release_run in
      transaction_keeps (Moved s) body s (Moved-same s s refl) (
        Outcome-of_ok (λ _ t. Moved s t) (body s)
          λ b t done.
            let (run_id, (runs, dense, seen)) = approve-Frame b s t h done in
            Moved-updated (released run_id) RunStatus.queued s t
              (λ id r found hit.
                subst (λ status. Step status RunStatus.queued) (sym (waiting_step run_id r hit))
                  Step.released)
              runs)

  pub approve-IsConsistent :
      (s : Store)
      → IsConsistent s
      → IsConsistent (approve_route digest approval_id context reason now s).1
  unfolding approve_route
  approve-IsConsistent s h =
      let body = approve digest approval_id context reason now >>= release_run in
      transaction_keeps IsConsistent body s h (
        Outcome-of_ok (λ _ t. IsConsistent t) (body s)
          λ b t done.
            let (run_id, frame) = approve-Frame b s t h done in
            IsConsistent-kept (released run_id) RunStatus.queued s t refl
              (λ id r found hit. rw (waiting_step run_id r hit) refl) h frame)

module _ (approval_id : Text) (context : RequestContext) (reason : Option Text) (now : Time) where
  pub reject-keeps :
      (P : Store → Type 0) (s : Store)
      → P s
      → ((t : Store) → t.runs ≡ s.runs → t.events ≡ s.events → P t)
      → P (reject_route approval_id context reason now s).1
  unfolding reject_route
  reject-keeps P s h same = transaction_keeps P (reject approval_id context reason now) s h (
      Outcome-of_ok (λ _. P) (reject approval_id context reason now s)
        λ b t done.
          let (a, found, was, may, rows, runs, events) =
            reject_sound approval_id context reason now s t b done in
          same t runs events)
