-- ===== src/Conversations/Repository.antt =====
-- backend/app/conversations/repository.py: the part of `ConversationRepository` that the run
-- lifecycle, the approvals and the gateways call.
pub mod Log
pub mod Resume
use intelligent_agent_platfo.Base.{
  ℕ, ◌+◌, max, Bool, true, false, ◌&&◌, Option, none, some, List, [], ◌∷◌, find, filterb, ltb, leb,
  ◌==◌, if◌then◌else◌,
}
use intelligent_agent_platfo.Effects.{◌>>=◌, ◌>>◌, gets, or_raise, modify, pure}
use intelligent_agent_platfo.Database.{
  Text, Store, Conversation, AgentRun, RunEvent, Event, ToolInvocation, Db, key_error,
}

unfoldable pub get_run_by_id : Text → Store → Option AgentRun
get_run_by_id run_id s = find (λ r. r.id == run_id) s.runs

-- `select(func.coalesce(func.max(RunEvent.sequence), 0)).where(RunEvent.run_id == run_id)`
unfoldable pub max_sequence : Text → List RunEvent → ℕ
max_sequence run_id [] = 0
max_sequence run_id (e ∷ es) =
    let rest = max_sequence run_id es in if e.run_id == run_id then max e.sequence rest else rest

unfoldable pub next_event_sequence : Text → Db ℕ
unfolding get_run_by_id
next_event_sequence run_id = do
  or_raise (← gets (get_run_by_id run_id)) (key_error run_id)
  gets (λ s. max_sequence run_id s.events + 1)

unfoldable pub append_event : Text → Event → Db (Unit {0})
unfolding next_event_sequence
append_event run_id event = do
  n ← next_event_sequence run_id
  modify (λ s. record s {
    events = record { run_id = run_id; sequence = n; event = event } ∷ s.events;
  })

-- `order_by(RunEvent.sequence)`, of rows that are added one at a time.
unfoldable pub insert_by_sequence : RunEvent → List RunEvent → List RunEvent
insert_by_sequence e [] = e ∷ []
insert_by_sequence e (x ∷ xs) =
    let rest = insert_by_sequence e xs in if leb e.sequence x.sequence then e ∷ x ∷ xs else x ∷ rest

unfoldable pub order_by_sequence : List RunEvent → List RunEvent
unfolding insert_by_sequence
order_by_sequence [] = []
order_by_sequence (x ∷ xs) = insert_by_sequence x (order_by_sequence xs)

unfoldable pub list_events : Text → ℕ → Store → List RunEvent
unfolding order_by_sequence
list_events run_id after_sequence s =
    order_by_sequence
      (filterb (λ e. (e.run_id == run_id) && ltb after_sequence e.sequence) s.events)

-- `select(RunEvent).where(…).order_by(RunEvent.sequence.desc()).limit(1)`: of the events that pass
-- the test, the one with the greatest sequence number.
abbrev pub later : RunEvent → Option RunEvent → Option RunEvent
later e none = some e
later e (some f) = if ltb e.sequence f.sequence then some f else some e

unfoldable pub latest_event : Text → (Event → Bool) → List RunEvent → Option RunEvent
latest_event run_id p [] = none
latest_event run_id p (e ∷ es) =
    let rest = latest_event run_id p es in
    if (e.run_id == run_id) && p e.event then later e rest else rest

pub record ExecutionContext : Type 0 where
  pub run_id : Text
  pub conversation_id : Text
  pub unit_id : Text
  pub project_id : Text
  pub user_id : Text
  pub actor_roles : List Text

abbrev pub context_of : Option AgentRun → List Conversation → Option ExecutionContext
context_of none cs = none
context_of (some r) cs = elim (find (λ c. c.id == r.conversation_id) cs) [
  | none ↦ none
  | some c ↦ some (record {
    run_id = r.id;
    conversation_id = c.id;
    unit_id = c.unit_id;
    project_id = c.project_id;
    user_id = c.owner_id;
    actor_roles = r.actor_roles;
  })
]

unfoldable pub get_run_execution_context : Text → Store → Option ExecutionContext
unfolding get_run_by_id
get_run_execution_context run_id s = context_of (get_run_by_id run_id s) s.conversations

unfoldable pub add_tool_invocation : ToolInvocation → Db (Unit {0})
add_tool_invocation invocation = modify (λ s. record s { invocations = invocation ∷ s.invocations })

unfoldable pub get_tool_invocation : Text → Text → Store → Option ToolInvocation
get_tool_invocation run_id tool_call_id s =
    find (λ i. (i.run_id == run_id) && (i.tool_call_id == tool_call_id)) s.invocations
