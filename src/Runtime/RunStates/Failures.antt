-- ===== src/Runtime/RunStates/Failures.antt =====
-- The run whose approved call has failed, as a step of the machine.
use intelligent_agent_platfo.Base.{
  ℕ, ◌+◌, refl, Bool, inl, inr, true, List, arith, map, count, ◌==◌, ==_iff, Bool-cases,
}
use intelligent_agent_platfo.Effects.{◌>>◌}
use intelligent_agent_platfo.Effects.Hoare.{Outcome, Outcome-map, meets_bind, transaction_keeps}
use intelligent_agent_platfo.Database.{Text, Store, AgentRun, RunStatus, ErrorCode, Event}
use intelligent_agent_platfo.Conversations.Repository.{append_event}
use intelligent_agent_platfo.Conversations.Dispatcher.{fail_session, fail_approved_run}
use intelligent_agent_platfo.Runtime.Lifecycle.{eligible, with_status}
use intelligent_agent_platfo.Runtime.Lifecycle.Frame.{
  verdicts, Frame, append_event-Keeps, append_event-Meets,
}
use intelligent_agent_platfo.Runtime.Lifecycle.Rows.{map-with_status_none}
use intelligent_agent_platfo.Runtime.Lifecycle.Invariant.{
  IsConsistent, IsConsistent-finished, one_verdict,
}
use intelligent_agent_platfo.Runtime.RunStates.{Step}
use intelligent_agent_platfo.Runtime.RunStates.Moves.{Moved, Moved-same, Moved-updated}

module _ (run_id : Text) (code : ErrorCode) (s : Store) (h : IsConsistent s) where
  abbrev V : Text → ℕ
  V id = verdicts id s.events

  abbrev rows : List AgentRun
  rows = map (with_status (eligible run_id RunStatus.failed true) RunStatus.failed) s.runs

  announced :
      Outcome
        (λ _. Frame rows (λ id. one_verdict run_id RunStatus.failed id + V id))
        ((append_event run_id (Event.run_error code)
            >> append_event run_id (Event.run_status RunStatus.failed))
          (record s { runs = rows }))
  unfolding one_verdict
  announced =
      meets_bind (Frame rows V) (λ _. Frame rows V)
        (λ _. Frame rows (λ id. one_verdict run_id RunStatus.failed id + V id))
        (append_event run_id (Event.run_error code))
        (λ _. append_event run_id (Event.run_status RunStatus.failed))
        (append_event-Keeps rows V run_id (Event.run_error code) refl)
        (λ _. append_event-Meets rows V run_id (Event.run_status RunStatus.failed))
        (record s { runs = rows }) (refl, h.dense, λ id. refl)

  pub fail-Moved :
      Moved s (fail_approved_run run_id code s).1 × IsConsistent (fail_approved_run run_id code s).1
  unfolding fail_approved_run fail_session one_verdict
  fail-Moved =
      transaction_keeps (λ t. Moved s t × IsConsistent t) (fail_session run_id code) s
        (Moved-same s s refl, h)
        (elim (Bool-cases (count p s.runs == 0)) [
          | inl zero_rows ↦
              rw
                (
                  zero_rows,
                  map-with_status_none p RunStatus.failed s.runs
                      ((==_iff (count p s.runs) 0).0 zero_rows),
                )
                (Moved-same s s refl, h)
          | inr hit ↦ rw hit (
              Outcome-map (λ _. Frame rows (λ id. one_verdict run_id RunStatus.failed id + V id))
                (λ _ t. Moved s t × IsConsistent t) _
                (λ _ t frame. (
                  Moved-updated p RunStatus.failed s t
                      (λ id r found reached. Step.ended (ground arith) refl) (frame.0),
                  IsConsistent-finished run_id RunStatus.failed true s t h refl (ground arith)
                      frame,
                ))
                announced)
        ])
    where
      p : AgentRun → Bool
      p = eligible run_id RunStatus.failed true
