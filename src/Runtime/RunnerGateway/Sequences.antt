-- ===== src/Runtime/RunnerGateway/Sequences.antt =====
-- The numbers that a runner gives its events.
use intelligent_agent_platfo.Base.{
  ℕ, ◌+◌, ◌≡◌, inl, inr, Bool, ◌&&◌, Option, List, [], ◌∷◌, arith, ◌==◌, if◌then◌else◌, Bool-cases,
  ==_iff,
}
use intelligent_agent_platfo.Effects.Hoare.{transaction_keeps}
use intelligent_agent_platfo.Effects.Inversion.{Outcome-of_ok}
use intelligent_agent_platfo.Database.{Text, Store, Event, RuntimeRunnerRequest, RunnerResponse}
use intelligent_agent_platfo.Database.Requests.{event_append, event_appended}
use intelligent_agent_platfo.Conversations.Repository.Log.{countdown}
use intelligent_agent_platfo.Runtime.RunnerGateway.{same_action, count_requests}
use intelligent_agent_platfo.Runtime.RunnerGateway.Events.{
  EventAppendRequest, append_fresh, append_session, append_runner_event,
}
use intelligent_agent_platfo.Runtime.RunnerGateway.Replay.{
  once_ok, append_fresh_ok, append_session_ok, written,
}

abbrev runner_sequence : RunnerResponse → ℕ
runner_sequence (event_appended platform n) = n
runner_sequence _ = 0

abbrev is_event_of : Text → RuntimeRunnerRequest → Bool
is_event_of run_id r = (r.run_id == run_id) && same_action r.action event_append

-- The runner's numbers of the events that were accepted, the newest first.
abbrev pub runner_sequences : Text → List RuntimeRunnerRequest → List ℕ
runner_sequences run_id [] = []
runner_sequences run_id (r ∷ rs) =
    let rest = runner_sequences run_id rs in
    if is_event_of run_id r then runner_sequence r.response_json ∷ rest else rest

-- A runner's events are accepted as 1, 2, 3, …, with no gap and none twice.
abbrev pub IsInOrder : List RuntimeRunnerRequest → Type 0
IsInOrder rs =
    (run_id : Text) → runner_sequences run_id rs ≡ countdown (count_requests run_id event_append rs)

module _ (encoded : Event → Option ℕ) (event_payload_max_bytes : ℕ)
    (digest : EventAppendRequest → Text) where
  written-IsInOrder :
      (run_id : Text) (request : EventAppendRequest) (key : Text) (s : Store)
      → request.sequence ≡ count_requests run_id event_append s.requests + 1
      → IsInOrder s.requests
      → IsInOrder (written encoded event_payload_max_bytes digest run_id request key s).requests
  unfolding count_requests
  written-IsInOrder run_id request key s numbered h id = elim (Bool-cases (run_id == id)) [
    | inl same ↦ rw (same, numbered, h id) (ground (arith, (==_iff run_id id).0 same))
    | inr differ ↦ rw differ (h id)
  ]

  -- Whatever a runner sends, the events of every run that were accepted stay numbered 1, 2, 3,
  -- … in the order of their acceptance.
  pub append_runner_event-IsInOrder :
      (run_id : Text) (request : EventAppendRequest) (key : Text) (s : Store)
      → IsInOrder s.requests
      → IsInOrder
          (append_runner_event encoded event_payload_max_bytes digest run_id request key
            s).1.requests
  unfolding append_runner_event
  append_runner_event-IsInOrder run_id request key s h =
      let fresh = append_fresh encoded event_payload_max_bytes digest run_id request key in
      let session = append_session encoded event_payload_max_bytes digest run_id request key in
      transaction_keeps (λ t. IsInOrder t.requests) session s h
        (Outcome-of_ok (λ _ t. IsInOrder t.requests) (session s)
          λ response t done.
            let (size, fits, small, made) =
              append_session_ok encoded event_payload_max_bytes digest run_id request key response s
                t done in
            elim (once_ok run_id event_append key (digest request) fresh response s t made) [
              | inl (answered, same) ↦ rw same h
              | inr (run, there, new, wrote) ↦
                  let (active, numbered, response_is, t_is) =
                    append_fresh_ok encoded event_payload_max_bytes digest run_id request key run
                      response s t wrote in
                  rw t_is (written-IsInOrder run_id request key s numbered h)
            ])
