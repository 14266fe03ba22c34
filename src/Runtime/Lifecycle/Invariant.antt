-- ===== src/Runtime/Lifecycle/Invariant.antt =====
-- The invariant of the runs and their event log, and `_finish`.
use intelligent_agent_platfo.Base.{
  ℕ, ◌+◌, ◌≡◌, ◌≢◌, refl, inl, inr, Bool, true, ◌&&◌, Option, none, some, List, arith, count, ◌==◌,
  ==_iff, ◌∙◌, if◌then◌else◌, Bool-cases, Option-cases, map,
}
use intelligent_agent_platfo.Effects.{◌>>=◌, pure, or_raise}
use intelligent_agent_platfo.Effects.Hoare.{
  Outcome, Meets, Keeps, meets_bind, Keeps-bind, Keeps-or_raise, Outcome-map, transaction_keeps,
}
use intelligent_agent_platfo.Database.{
  Text, Store, RunStatus, ErrorCode, AgentRun, Event, AuditKey, is_terminal, key_error, Db,
}
use intelligent_agent_platfo.Conversations.Repository.{append_event, get_run_by_id}
use intelligent_agent_platfo.Conversations.Repository.Log.{IsDense}
use intelligent_agent_platfo.Runtime.ScriptLifecycle.{finish_running_script_invocations}
use intelligent_agent_platfo.Runtime.Lifecycle.{
  record_audit, audit_status, append_error, finish_found, require_run, finish_session, finish,
  eligible, may_finish, with_status,
}
use intelligent_agent_platfo.Runtime.Lifecycle.Frame.{
  verdicts, Frame, append_event-Meets, append_event-Keeps, record_audit-Keeps,
  finish_running_script_invocations-Keeps,
}
use intelligent_agent_platfo.Runtime.Lifecycle.Rows.{
  has_id, find_run, IsKeyed, count_of, count_and, map-with_status_none, updated, find_run-map,
  count-has_id-map, find_run-id,
}

-- How many announcements of its end a run should have.
abbrev pub announcements : Option AgentRun → ℕ
announcements = count_of (λ r. is_terminal r.status)

pub record IsConsistent (s : Store) : Type 0 where
  -- event numbers have no gaps
  pub dense : IsDense s.events
  -- the primary key of the runs
  pub keyed : IsKeyed s.runs
  -- a run has one terminal `run.status` event if it has ended, and else none
  pub announced : (id : Text) → verdicts id s.events ≡ announcements (find_run id s.runs)

unfoldable pub one_verdict : Text → RunStatus → Text → ℕ
one_verdict run_id status id = if (run_id == id) && is_terminal status then 1 else 0

module _ (runs : List AgentRun) (V : Text → ℕ) where
  append_error-Keeps :
      (run_id : Text) (code : Option ErrorCode) → Keeps (Frame runs V) (append_error run_id code)
  append_error-Keeps run_id none s h = h
  append_error-Keeps run_id (some code) s h =
      append_event-Keeps runs V run_id (Event.run_error code) refl s h

  pub finish_found-Meets :
      (run_id : Text) (status : RunStatus) (code : Option ErrorCode) (now : ℕ)
      → Meets
          (Frame runs V)
          (finish_found run_id status code now)
          (λ _. Frame runs (λ id. one_verdict run_id status id + V id))
  unfolding finish_found one_verdict
  finish_found-Meets run_id status code now s h = elim (Option-cases (get_run_by_id run_id s)) [
    | inl absent ↦ rw absent tt
    | inr (r, found) ↦ rw found (report r s h)
  ]
    where
      F : Store → Type 0
      F = Frame runs V

      G : Store → Type 0
      G = Frame runs (λ id. one_verdict run_id status id + V id)

      audit : AgentRun → Db (Unit {0})
      audit r =
          record_audit r (AuditKey.sandbox_run_finished r.id status) (audit_status status) code

      announce : AgentRun → Db (Unit {0})
      announce r = append_event run_id (Event.run_status status) >>= λ _. audit r

      explain : AgentRun → Db (Unit {0})
      explain r = append_error run_id code >>= λ _. announce r

      finished : AgentRun → Db (Unit {0})
      finished r = append_event run_id (Event.sandbox_finished status code) >>= λ _. explain r

      announce-Meets : (r : AgentRun) → Meets F (announce r) (λ _. G)
      announce-Meets r =
          meets_bind F (λ _. G) (λ _. G) (append_event run_id (Event.run_status status))
            (λ _. audit r) (append_event-Meets runs V run_id (Event.run_status status))
            (λ _.
              record_audit-Keeps runs (λ id. one_verdict run_id status id + V id) r
                (AuditKey.sandbox_run_finished r.id status) (audit_status status) code)

      explain-Meets : (r : AgentRun) → Meets F (explain r) (λ _. G)
      explain-Meets r =
          meets_bind F (λ _. F) (λ _. G) (append_error run_id code) (λ _. announce r)
            (append_error-Keeps run_id code) (λ _. announce-Meets r)

      finished-Meets : (r : AgentRun) → Meets F (finished r) (λ _. G)
      finished-Meets r =
          meets_bind F (λ _. F) (λ _. G) (append_event run_id (Event.sandbox_finished status code))
            (λ _. explain r)
            (append_event-Keeps runs V run_id (Event.sandbox_finished status code) refl)
            (λ _. explain-Meets r)

      report :
          (r : AgentRun)
          → Meets F
              (finish_running_script_invocations run_id status code now >>= λ _. finished r)
              (λ _. G)
      report r =
          meets_bind F (λ _. F) (λ _. G) (finish_running_script_invocations run_id status code now)
            (λ _. finished r)
            (finish_running_script_invocations-Keeps runs V run_id status code now)
            (λ _. finished-Meets r)

-- If the update reached a row, that row is the run.
hit-may_finish :
    (run_id : Text) (status : RunStatus) (allow : Bool) (runs : List AgentRun)
    → IsKeyed runs
    → count (eligible run_id status allow) runs ≢ 0
    → count_of (may_finish status allow) (find_run run_id runs) ≢ 0
hit-may_finish run_id status allow runs keyed hit none_left =
    hit (count_and (has_id run_id) (may_finish status allow) runs (keyed run_id) ∙ none_left)

-- The announcements that a run should have after the update.
announcements-updated :
    (run_id : Text) (status : RunStatus) (allow : Bool) (id : Text) (found : Option AgentRun)
    → is_terminal status ≡ true
    → (run_id ≡ id → count_of (may_finish status allow) found ≢ 0)
    → ((r : AgentRun) → found ≡ some r → r.id ≡ id)
    → one_verdict run_id status id + announcements found
      ≡ announcements (updated (eligible run_id status allow) status found)
unfolding one_verdict updated
announcements-updated run_id status allow id none final hit named =
    elim (Bool-cases (run_id == id)) [
      | inl same ↦ absurd (hit ((==_iff run_id id).0 same) refl)
      | inr differ ↦ ground arith
    ]
announcements-updated run_id status allow id (some r) final hit named =
    elim (Bool-cases (run_id == id)) [
      | inl same ↦ ground (arith, hit ((==_iff run_id id).0 same), named r refl)
      | inr differ ↦ ground (arith, named r refl)
    ]

-- The table and the log after an update of one run that has not ended and its announcement.
pub IsConsistent-finished :
    (run_id : Text) (status : RunStatus) (allow : Bool) (s t : Store)
    → IsConsistent s
    → is_terminal status ≡ true
    → count (eligible run_id status allow) s.runs ≢ 0
    → Frame
        (map (with_status (eligible run_id status allow) status) s.runs)
        (λ id. one_verdict run_id status id + verdicts id s.events)
        t
    → IsConsistent t
unfolding one_verdict
IsConsistent-finished run_id status allow s t ok_s final hit (runs, dense, seen) = record {
  dense = dense;
  keyed = λ id.
      rw runs
        (rw (count-has_id-map (eligible run_id status allow) status id s.runs) (ok_s.keyed id));
  announced = λ id.
      rw
        (
          runs,
          seen id,
          ok_s.announced id,
          find_run-map (eligible run_id status allow) status id s.runs,
        )
        (announcements-updated run_id status allow id (find_run id s.runs) final
          (λ same. rw (← same) (hit-may_finish run_id status allow s.runs ok_s.keyed hit))
          (λ r. find_run-id id s.runs r));
}

require_run-Keeps : (run_id : Text) → Keeps IsConsistent (require_run run_id)
unfolding require_run
require_run-Keeps run_id s h =
    Keeps-bind IsConsistent (or_raise (get_run_by_id run_id s) (key_error run_id)) (λ _. pure tt)
      (Keeps-or_raise IsConsistent (get_run_by_id run_id s) (key_error run_id)) (λ _ t g. g) s h

finish_session-IsConsistent :
    (run_id : Text) (status : RunStatus) (code : Option ErrorCode) (allow : Bool) (now : ℕ)
    (s : Store)
    → is_terminal status ≡ true
    → IsConsistent s
    → Outcome (λ _ t. IsConsistent t) (finish_session run_id status code allow now s)
unfolding finish_session
finish_session-IsConsistent run_id status code allow now s final h =
    elim (Bool-cases (count (eligible run_id status allow) s.runs == 0)) [
      | inl zero_rows ↦
          let none_hit = (==_iff (count (eligible run_id status allow) s.runs) 0).0 zero_rows in
          rw (zero_rows, map-with_status_none (eligible run_id status allow) status s.runs none_hit)
            (require_run-Keeps run_id s h)
      | inr hit ↦
          let rows = map (with_status (eligible run_id status allow) status) s.runs in
          let some_hit : count (eligible run_id status allow) s.runs ≢ 0 = ground arith in
          rw hit (
            Outcome-map
              (λ _. Frame rows (λ id. one_verdict run_id status id + verdicts id s.events))
              (λ _ t. IsConsistent t)
              (finish_found run_id status code now (record s { runs = rows }))
              (λ _ t. IsConsistent-finished run_id status allow s t h final some_hit)
              (finish_found-Meets rows (λ id. verdicts id s.events) run_id status code now
                (record s { runs = rows }) (refl, h.dense, λ id. refl)))
    ]

-- Ending a run keeps the invariant, on every path: the run is not there, it has ended already, it
-- waits for an approval, or it is ended now.
pub finish-IsConsistent :
    (run_id : Text) (status : RunStatus) (code : Option ErrorCode) (allow : Bool) (now : ℕ)
    (s : Store)
    → is_terminal status ≡ true
    → IsConsistent s
    → IsConsistent (finish run_id status code allow now s).1
unfolding finish
finish-IsConsistent run_id status code allow now s final h =
    transaction_keeps IsConsistent (finish_session run_id status code allow now) s h
      (finish_session-IsConsistent run_id status code allow now s final h)
