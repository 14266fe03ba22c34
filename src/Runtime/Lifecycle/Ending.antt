-- ===== src/Runtime/Lifecycle/Ending.antt =====
-- `_finish` on a run that may be ended, and on one that has ended.
use mathlib.Core.Path.{subst}
use intelligent_agent_platfo.Base.{
  ℕ, ◌≡◌, refl, sym, ap, Bool, true, Option, some, List, arith, count, ◌==◌, ◌∙◌, if◌then◌else◌,
  find, map,
}
use intelligent_agent_platfo.Effects.{ok}
use intelligent_agent_platfo.Effects.Total.{
  Returned, Returned-transaction, Returned-map, transaction_of_ok,
}
use intelligent_agent_platfo.Database.{
  Text, Store, RunStatus, ErrorCode, AgentRun, Conversation, is_terminal,
}
use intelligent_agent_platfo.Conversations.Repository.{get_run_by_id}
use intelligent_agent_platfo.Runtime.Lifecycle.{
  finish_found, require_run, finish_session, finish, eligible, may_finish, set_status, with_status,
}
use intelligent_agent_platfo.Runtime.Lifecycle.Rows.{
  has_id, find_run, IsKeyed, count_of, count_and, map-with_status_none, updated, find_run-map,
  find_run-id,
}
use intelligent_agent_platfo.Runtime.Lifecycle.Returning.{HasContext, finish_found-Returns}

-- The table of runs after the update of `_finish`.
abbrev pub ended : Text → RunStatus → Bool → List AgentRun → List AgentRun
ended run_id status allow = map (with_status (eligible run_id status allow) status)

ended-HasContext :
    (run_id : Text) (status : RunStatus) (allow : Bool) (runs : List AgentRun)
    (conversations : List Conversation)
    → HasContext run_id runs conversations
    → HasContext run_id (ended run_id status allow runs) conversations
ended-HasContext run_id status allow runs conversations h = record {
  run = with_status (eligible run_id status allow) status h.run;
  conversation = h.conversation;
  found =
      rw (find_run-map (eligible run_id status allow) status run_id runs, h.found)
        (unfold updated in refl);
  placed =
      subst (λ c. find (λ d. d.id == c) conversations ≡ some h.conversation) (ground arith)
        h.placed;
  unit = h.unit;
  project = h.project;
}

rows_hit :
    (run_id : Text) (status : RunStatus) (allow : Bool) (runs : List AgentRun) (run : AgentRun)
    → IsKeyed runs
    → find_run run_id runs ≡ some run
    → count (eligible run_id status allow) runs ≡ (if may_finish status allow run then 1 else 0)
rows_hit run_id status allow runs run keyed found =
    count_and (has_id run_id) (may_finish status allow) runs (keyed run_id)
    ∙ ap (count_of (may_finish status allow)) found

finish_session-Returns :
    (run_id : Text) (status : RunStatus) (code : Option ErrorCode) (allow : Bool) (now : ℕ)
    (s : Store)
    → IsKeyed s.runs
    → (here : HasContext run_id s.runs s.conversations) → may_finish status allow here.run ≡ true
    → Returned
        (λ t. find_run run_id t.runs ≡ some (record here.run { status = status }))
        (finish_session run_id status code allow now s)
unfolding finish_session
finish_session-Returns run_id status code allow now s keyed here may =
    let rows = ended run_id status allow s.runs in
    let hit : count (eligible run_id status allow) s.runs ≡ 1 =
      rows_hit run_id status allow s.runs here.run keyed here.found ∙ rw may refl in
    let named = find_run-id run_id s.runs here.run here.found in
    let updated_run : find_run run_id rows ≡ some (record here.run { status = status }) =
      rw (find_run-map (eligible run_id status allow) status run_id s.runs, here.found)
        (unfold updated in ground arith) in
    rw hit (
      Returned-map (λ t. (t.runs ≡ rows) × (t.conversations ≡ s.conversations))
        (λ t. find_run run_id t.runs ≡ some (record here.run { status = status }))
        (finish_found run_id status code now (set_status (eligible run_id status allow) status s))
        (λ t h.
          subst (λ rs. find_run run_id rs ≡ some (record here.run { status = status })) (sym h.0)
            updated_run)
        (finish_found-Returns rows s.conversations run_id
          (ended-HasContext run_id status allow s.runs s.conversations here) status code now
          (set_status (eligible run_id status allow) status s) (unfold set_status in (refl, refl))))

-- With run identifiers that are distinct: a run that is there with its conversation, whose unit and
-- project are not empty, that has not ended, and that is not to be completed without leave while it
-- waits for an approval, is ended: the session returns, the run has the status, and no other column
-- of it is changed.
pub finish_ends :
    (run_id : Text) (status : RunStatus) (code : Option ErrorCode) (allow : Bool) (now : ℕ)
    (s : Store)
    → IsKeyed s.runs
    → (here : HasContext run_id s.runs s.conversations) → may_finish status allow here.run ≡ true
    → Returned
        (λ t. find_run run_id t.runs ≡ some (record here.run { status = status }))
        (finish run_id status code allow now s)
unfolding finish
finish_ends run_id status code allow now s keyed here may =
    Returned-transaction (λ t. find_run run_id t.runs ≡ some (record here.run { status = status }))
      (finish_session run_id status code allow now) s
      (finish_session-Returns run_id status code allow now s keyed here may)

set_status_none :
    (p : AgentRun → Bool) (status : RunStatus) (s : Store)
    → count p s.runs ≡ 0
    → set_status p status s ≡ s
unfolding set_status
set_status_none p status s none_hit =
    ap (λ rs. record s { runs = rs }) (map-with_status_none p status s.runs none_hit)

require_run_found :
    (run_id : Text) (s : Store) (run : AgentRun)
    → find_run run_id s.runs ≡ some run
    → require_run run_id s ≡ (ok tt, s)
unfolding require_run get_run_by_id
require_run_found run_id s run found = rw found refl

finish_session_ended :
    (run_id : Text) (status : RunStatus) (code : Option ErrorCode) (allow : Bool) (now : ℕ)
    (s : Store) (run : AgentRun)
    → IsKeyed s.runs
    → find_run run_id s.runs ≡ some run
    → is_terminal run.status ≡ true
    → finish_session run_id status code allow now s ≡ (ok tt, s)
unfolding finish_session
finish_session_ended run_id status code allow now s run keyed found final =
    let untouched : count (eligible run_id status allow) s.runs ≡ 0 =
      rows_hit run_id status allow s.runs run keyed found ∙ ground arith in
    rw untouched (
      ap (require_run run_id) (set_status_none (eligible run_id status allow) status s untouched)
      ∙ require_run_found run_id s run found)

-- A run that has ended is left as it is, with everything else.
pub finish_ended :
    (run_id : Text) (status : RunStatus) (code : Option ErrorCode) (allow : Bool) (now : ℕ)
    (s : Store) (run : AgentRun)
    → IsKeyed s.runs
    → find_run run_id s.runs ≡ some run
    → is_terminal run.status ≡ true
    → finish run_id status code allow now s ≡ (ok tt, s)
unfolding finish
finish_ended run_id status code allow now s run keyed found final =
    transaction_of_ok (finish_session run_id status code allow now) s
      (finish_session_ended run_id status code allow now s run keyed found final)
