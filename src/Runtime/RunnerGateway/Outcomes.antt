-- ===== src/Runtime/RunnerGateway/Outcomes.antt =====
-- What a result that `complete` accepts leaves in the tables. The status of the run is set in one
-- of two places: before its event, or under a deadline as the session commits.
use intelligent_agent_platfo.Base.{
  ℕ, ◌+◌, ◌≡◌, inl, inr, refl, ap, Bool, true, false, ◌&&◌, not, Option, none, some, List, map,
  ◌==◌, if◌then◌else◌, Option-cases, find,
}
use intelligent_agent_platfo.Effects.{◌>>◌, when}
use intelligent_agent_platfo.Effects.Hoare.{Meets, Keeps, meets_bind, Keeps-bind, Keeps-when}
use intelligent_agent_platfo.Database.{Text, Time, Store, AgentRun, RunStatus, Event, Db}
use intelligent_agent_platfo.Conversations.Repository.{append_event, get_run_by_id}
use intelligent_agent_platfo.Runtime.ScriptLifecycle.{finish_running_script_invocations}
use intelligent_agent_platfo.Runtime.Lifecycle.{with_status, set_status}
use intelligent_agent_platfo.Runtime.Lifecycle.Frame.{
  is_verdict, Frame, append_event-Meets, append_event-Keeps,
  finish_running_script_invocations-Keeps,
}
use intelligent_agent_platfo.Runtime.Lifecycle.Rows.{has_id, find_run}
use intelligent_agent_platfo.Runtime.DeadlineCommit.{same_status}
use intelligent_agent_platfo.Runtime.RunnerGateway.Completion.{
  CompletionRequest, CompletionScope, target_of, next_message_sequence, store_message,
  add_assistant_message, answer_message, announce, write_completion,
}

-- What the event that announces a status adds to the announcements of a run.
abbrev pub announced_as : Text → RunStatus → (Text → ℕ) → Text → ℕ
announced_as run_id target V id =
    (if (run_id == id) && is_verdict (Event.run_status target) then 1 else 0) + V id

-- The update reaches the run and no other row.
abbrev pub Reaches : Text → List AgentRun → (AgentRun → Bool) → Type 0
Reaches run_id runs p =
    ((r : AgentRun) → p r ≡ true → r.id ≡ run_id)
    × ((r : AgentRun) → find_run run_id runs ≡ some r → p r ≡ true)

module _ (run_id : Text) (target : RunStatus) (runs : List AgentRun) (V : Text → ℕ) where
  -- Before the commit: whether the run has the status already, and the deadline it waits for.
  abbrev pub Drafted : Bool → Option Time → Store → Type 0
  Drafted true guard = Frame runs V
  Drafted false none =
      Frame (map (with_status (has_id run_id) target) runs) (announced_as run_id target V)
  Drafted false (some deadline) = Frame runs (announced_as run_id target V)

  -- After it.
  abbrev pub Landed : Bool → Store → Type 0
  Landed true = Frame runs V
  Landed false = λ t.
      (p : AgentRun → Bool) × Reaches run_id runs p
      × Frame (map (with_status p target) runs) (announced_as run_id target V) t

  next_message_sequence-Keeps :
      (conversation_id : Text) → Keeps (Frame runs V) (next_message_sequence conversation_id)
  unfolding next_message_sequence
  next_message_sequence-Keeps conversation_id s h =
      elim (Option-cases (find (λ c. c.id == conversation_id) s.conversations)) [
        | inl lost ↦ rw lost tt
        | inr (c, there) ↦ rw there h
      ]

  add_assistant_message-Keeps :
      (content : Text) → Keeps (Frame runs V) (add_assistant_message run_id content)
  unfolding add_assistant_message
  add_assistant_message-Keeps content s h = elim (Option-cases (get_run_by_id run_id s)) [
    | inl absent ↦ rw absent tt
    | inr (run, found) ↦ rw found (
        Keeps-bind (Frame runs V) (next_message_sequence run.conversation_id)
          (store_message run content) (next_message_sequence-Keeps run.conversation_id) (λ n t g. g)
          s h)
  ]

  answer_message-Keeps :
      (content : Option Text) → Keeps (Frame runs V) (answer_message run_id content)
  answer_message-Keeps none s h = h
  answer_message-Keeps (some content) s h =
      Keeps-when (Frame runs V) (not (content == 0)) (add_assistant_message run_id content)
        (add_assistant_message-Keeps content) s h

  announce-Meets :
      (guard : Option Time)
      → Meets (Frame runs V) (announce run_id target guard) (λ _. Drafted false guard)
  unfolding announce set_status
  announce-Meets none s (same, dense, seen) =
      append_event-Meets (map (with_status (has_id run_id) target) runs) V run_id
        (Event.run_status target) (set_status (has_id run_id) target s)
        (ap (map (with_status (has_id run_id) target)) same, dense, seen)
  announce-Meets (some deadline) s h =
      append_event-Meets runs V run_id (Event.run_status target) s h

  announced-Meets :
      (same : Bool) (guard : Option Time)
      → Meets
          (Frame runs V)
          (when (not same) (announce run_id target guard))
          (λ _. Drafted same guard)
  announced-Meets true guard s h = h
  announced-Meets false guard s h = announce-Meets guard s h

  module _ (digest : CompletionRequest → Text) (scope : CompletionScope)
      (request : CompletionRequest) where
    pub write_completion-Meets :
        (guard : Option Time) (run : AgentRun)
        → target_of request.status ≡ target
        → Meets
            (Frame runs V)
            (write_completion digest scope run_id request guard run)
            (λ _. Drafted (same_status run.status target) guard)
    unfolding write_completion
    write_completion-Meets guard run same = rw same (
        meets_bind F (λ _. F) (λ _. G) answer (λ _. scripts >> (report >> say))
          (answer_message-Keeps request.final_assistant_content)
          λ _.
            meets_bind F (λ _. F) (λ _. G) scripts (λ _. report >> say)
              (finish_running_script_invocations-Keeps runs V run_id target request.error_code
                (scope.clock 2))
              λ _.
                meets_bind F (λ _. F) (λ _. G) report (λ _. say)
                  (append_event-Keeps runs V run_id event refl)
                  (λ _. announced-Meets (same_status run.status target) guard))
      where
        F : Store → Type 0
        F = Frame runs V

        G : Store → Type 0
        G = Drafted (same_status run.status target) guard

        event : Event
        event = Event.runner_completion request.status request.error_code

        answer : Db (Unit {0})
        answer = answer_message run_id request.final_assistant_content

        scripts : Db (Unit {0})
        scripts = finish_running_script_invocations run_id target request.error_code (scope.clock 2)

        report : Db (Unit {0})
        report = append_event run_id event

        say : Db (Unit {0})
        say = when (not (same_status run.status target)) (announce run_id target guard)
