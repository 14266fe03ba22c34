-- ===== src/Runtime/RunnerGateway/Log.antt =====
-- What a runner's events do to the log that the platform reads.
use mathlib.Core.Path.{subst}
use intelligent_agent_platfo.Base.{ℕ, ◌≡◌, inl, inr, refl, sym, false, Option, none, arith}
use intelligent_agent_platfo.Effects.{ok}
use intelligent_agent_platfo.Effects.Hoare.{transaction_keeps}
use intelligent_agent_platfo.Effects.Inversion.{Outcome-of_ok, transaction_ok}
use intelligent_agent_platfo.Database.{Text, Store, Event, CleanupStatus, RunnerResponse}
use intelligent_agent_platfo.Database.Requests.{event_append}
use intelligent_agent_platfo.Conversations.Repository.Log.{appended-IsDense}
use intelligent_agent_platfo.Runtime.Lifecycle.{cleanup_is_due}
use intelligent_agent_platfo.Runtime.Lifecycle.Frame.{is_verdict, verdicts-appended}
use intelligent_agent_platfo.Runtime.Lifecycle.Invariant.{IsConsistent}
use intelligent_agent_platfo.Runtime.Lifecycle.Sessions.{IsConsistent-Frame}
use intelligent_agent_platfo.Runtime.Lifecycle.Cleanup.{cleanup_appended}
use intelligent_agent_platfo.Runtime.RunnerGateway.{get_request}
use intelligent_agent_platfo.Runtime.RunnerGateway.Events.{
  EventAppendRequest, append_fresh, append_session, append_runner_event,
}
use intelligent_agent_platfo.Runtime.RunnerGateway.Replay.{
  once_ok, append_fresh_ok, append_session_ok, written,
}

module _ (encoded : Event → Option ℕ) (event_payload_max_bytes : ℕ)
    (digest : EventAppendRequest → Text) where
  written-IsConsistent :
      (run_id : Text) (request : EventAppendRequest) (key : Text) (s : Store)
      → is_verdict request.event ≡ false
      → IsConsistent s
      → IsConsistent (written encoded event_payload_max_bytes digest run_id request key s)
  written-IsConsistent run_id request key s quiet h =
      IsConsistent-Frame s (written encoded event_payload_max_bytes digest run_id request key s) h (
        refl,
        appended-IsDense run_id request.event s h.dense,
        λ id. ground (arith, verdicts-appended run_id request.event s id),
      )

  -- Appending an event writes its row and its request, or changes nothing.
  pub append_runner_event-keeps :
      (P : Store → Type 0) (run_id : Text) (request : EventAppendRequest) (key : Text) (s : Store)
      → P s
      → P (written encoded event_payload_max_bytes digest run_id request key s)
      → P (append_runner_event encoded event_payload_max_bytes digest run_id request key s).1
  unfolding append_runner_event
  append_runner_event-keeps P run_id request key s h new_h =
      let fresh = append_fresh encoded event_payload_max_bytes digest run_id request key in
      let session = append_session encoded event_payload_max_bytes digest run_id request key in
      transaction_keeps P session s h (
        Outcome-of_ok (λ _ t. P t) (session s)
          λ response t done.
            let (size, fits, small, made) =
              append_session_ok encoded event_payload_max_bytes digest run_id request key response s
                t done in
            elim (once_ok run_id event_append key (digest request) fresh response s t made) [
              | inl (answered, same) ↦ subst P (sym same) h
              | inr (run, there, new, wrote) ↦
                  let (active, numbered, response_is, t_is) =
                    append_fresh_ok encoded event_payload_max_bytes digest run_id request key run
                      response s t wrote in
                  subst P (sym t_is) new_h
            ])

  -- An event that a runner appends keeps the runs and their log consistent, unless it is a
  -- `run.status` event of a final status: the gateway takes any type, also the platform's own.
  pub append_runner_event-IsConsistent :
      (run_id : Text) (request : EventAppendRequest) (key : Text) (s : Store)
      → is_verdict request.event ≡ false
      → IsConsistent s
      → IsConsistent
          (append_runner_event encoded event_payload_max_bytes digest run_id request key s).1
  append_runner_event-IsConsistent run_id request key s quiet h =
      append_runner_event-keeps IsConsistent run_id request key s h
        (written-IsConsistent run_id request key s quiet h)

  -- A runner can keep its own sandbox from being cleaned up: once it has appended an event of the
  -- type `sandbox.cleanup` with the status `cleaned` under a new key, no cleanup is due for its run.
  pub append_runner_event_forges :
      (run_id : Text) (request : EventAppendRequest) (key : Text) (response : RunnerResponse)
      (s t : Store)
      → request.event ≡ Event.sandbox_cleanup CleanupStatus.cleaned
      → get_request run_id event_append key s.requests ≡ none
      → append_runner_event encoded event_payload_max_bytes digest run_id request key s
        ≡ (ok response, t)
      → cleanup_is_due run_id t ≡ false
  unfolding append_runner_event cleanup_is_due
  append_runner_event_forges run_id request key response s t forged new h =
      let fresh = append_fresh encoded event_payload_max_bytes digest run_id request key in
      let session = append_session encoded event_payload_max_bytes digest run_id request key in
      let (size, fits, small, made) =
        append_session_ok encoded event_payload_max_bytes digest run_id request key response s t
          (transaction_ok session s h) in
      elim (once_ok run_id event_append key (digest request) fresh response s t made) [
        | inl (answered, same) ↦ cc (answered.stored)
        | inr (run, there, first, wrote) ↦
            let (active, numbered, response_is, t_is) =
              append_fresh_ok encoded event_payload_max_bytes digest run_id request key run response
                s t wrote in
            rw (t_is, forged) (cleanup_appended run_id s)
      ]
