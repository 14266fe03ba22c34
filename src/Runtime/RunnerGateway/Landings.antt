-- ===== src/Runtime/RunnerGateway/Landings.antt =====
-- The runs and their log after a result, by where `complete` has set the status.
use mathlib.Core.Path.{subst}
use intelligent_agent_platfo.Base.{
  ◌≡◌, inl, inr, refl, Bool, true, false, Option, none, some, arith, ◌==◌, ==_iff, Bool-cases,
}
use intelligent_agent_platfo.Database.{Text, Store, AgentRun, RunStatus, is_terminal}
use intelligent_agent_platfo.Runtime.Lifecycle.Frame.{verdicts}
use intelligent_agent_platfo.Runtime.Lifecycle.Rows.{
  find_run, updated, find_run-map, count-has_id-map, find_run-id,
}
use intelligent_agent_platfo.Runtime.Lifecycle.Invariant.{IsConsistent, announcements}
use intelligent_agent_platfo.Runtime.Lifecycle.Sessions.{IsConsistent-Frame}
use intelligent_agent_platfo.Runtime.DeadlineCommit.{same_status}
use intelligent_agent_platfo.Runtime.RunnerGateway.Outcomes.{announced_as, Landed}

pub same_status-eq : (a b : RunStatus) → same_status a b ≡ true → a ≡ b
same_status-eq a b h = ground arith

module _ (run_id : Text) (target : RunStatus) (run : AgentRun)
    (live : is_terminal run.status ≡ false) where
  announcements-landed :
      (p : AgentRun → Bool) (id : Text) (found : Option AgentRun)
      → ((r : AgentRun) → p r ≡ true → r.id ≡ run_id)
      → p run ≡ true
      → (run_id ≡ id → found ≡ some run)
      → ((r : AgentRun) → found ≡ some r → r.id ≡ id)
      → announced_as run_id target (λ _. announcements found) id
        ≡ announcements (updated p target found)
  unfolding updated
  announcements-landed p id none only hit here named = elim (Bool-cases (run_id == id)) [
    | inl same ↦ cc (here ((==_iff run_id id).0 same))
    | inr differ ↦ rw differ refl
  ]
  announcements-landed p id (some r) only hit here named = elim (Bool-cases (run_id == id)) [
    | inl same ↦ ground (arith, here ((==_iff run_id id).0 same))
    | inr differ ↦ elim (Bool-cases (p r)) [
      | inl reached ↦ ground (arith, only r reached, named r refl)
      | inr passed ↦ ground arith
    ]
  ]

  pub IsConsistent-Landed :
      (same : Bool) (s t : Store)
      → IsConsistent s
      → find_run run_id s.runs ≡ some run
      → Landed run_id target s.runs (λ id. verdicts id s.events) same t
      → IsConsistent t
  IsConsistent-Landed true s t h found landed = IsConsistent-Frame s t h landed
  IsConsistent-Landed false s t h found (p, (only, reached), (runs, dense, seen)) = record {
    dense = dense;
    keyed = λ id. rw (runs, count-has_id-map p target id s.runs) (h.keyed id);
    announced = λ id.
        rw (runs, seen id, h.announced id, find_run-map p target id s.runs)
          (announcements-landed p id (find_run id s.runs) only (reached run found)
            (λ e. subst (λ i. find_run i s.runs ≡ some run) e found)
            (λ r. find_run-id id s.runs r));
  }

  -- The run that is there afterwards.
  pub Landed-run :
      (same : Bool) (s t : Store)
      → find_run run_id s.runs ≡ some run
      → (same ≡ true → run.status ≡ target)
      → Landed run_id target s.runs (λ id. verdicts id s.events) same t
      → find_run run_id t.runs ≡ some (record run { status = target })
  unfolding updated
  Landed-run true s t found already (runs, dense, seen) =
      rw (runs, found) (let e = already refl in ground arith)
  Landed-run false s t found already (p, (only, reached), (runs, dense, seen)) =
      rw (runs, find_run-map p target run_id s.runs, found)
        (let e = reached run found in ground arith)
