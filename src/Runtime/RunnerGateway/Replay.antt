-- ===== src/Runtime/RunnerGateway/Replay.antt =====
-- Requests that come again under their idempotency key.
use intelligent_agent_platfo.Base.{
  ℕ, ◌+◌, ◌≡◌, ◌≢◌, ◌⊎◌, ◌∙◌, sym, inl, inr, refl, true, false, Bool, Option, none, some, List, [],
  ◌∷◌, ◌++◌, All, find, arith, ltb, ◌==◌, ==_iff, ==-self, Bool-cases, Option-cases,
}
use intelligent_agent_platfo.Effects.{Result, ok, err, ◌>>=◌, ◌>>◌, or_raise}
use intelligent_agent_platfo.Effects.Inversion.{bind_ok, or_raise_ok, raise_if_ok, transaction_ok}
use intelligent_agent_platfo.Effects.Total.{transaction_of_ok}
use intelligent_agent_platfo.Database.{
  Exception, Text, Store, AgentRun, Event, RuntimeRunnerRequest, RunnerResponse, GatewayAction,
  GatewayCode, runner_gateway_error, Db, is_running,
}
use intelligent_agent_platfo.Database.Requests.{event_append, event_appended}
use intelligent_agent_platfo.Conversations.Repository.{get_run_by_id, max_sequence}
use intelligent_agent_platfo.Runtime.RunnerGateway.Events.{
  EventAppendRequest, append_fresh, append_session, append_runner_event,
}
use intelligent_agent_platfo.Runtime.RunnerGateway.{
  is_request, refuse_if, get_request, count_requests, add_request, lock_run, require_active_run,
  stored_response, replay_or_conflict, answer_or, once,
}

err_ok :
    {A : Type 0} {e : Exception} {a : A} {s t : Store}
    → ◌≡◌ {A = Result Exception A × Store} (err e, s) (ok a, t)
    → ⊥
err_ok h = cc

ok_ok :
    {A : Type 0} {a b : A} {s t : Store}
    → ◌≡◌ {A = Result Exception A × Store} (ok a, s) (ok b, t)
    → (a ≡ b) × (t ≡ s)
ok_ok h = (cc, cc)

module _ (run_id : Text) (action : GatewayAction) (key request_digest : Text) where
  -- The run is there, and its request is stored with the response.
  pub record IsAnswered (response : RunnerResponse) (s : Store) : Type 0 where
    pub run : AgentRun
    pub there : get_run_by_id run_id s ≡ some run
    pub row : RuntimeRunnerRequest
    pub stored : get_request run_id action key s.requests ≡ some row
    pub digested : row.request_digest ≡ request_digest
    pub answered : row.response_json ≡ response

find-later :
    (p : RuntimeRunnerRequest → Bool) (newer rows : List RuntimeRunnerRequest)
    → All (λ r. p r ≡ false) newer
    → find p (newer ++ rows) ≡ find p rows
find-later p [] rows others = refl
find-later p (r ∷ newer) rows (other, others) = rw other (find-later p newer rows others)

-- A later state: requests may have been stored in the meantime, of any run, as long as they are
-- others (the table's unique constraint); the run is still there, in whatever status.
pub record IsLater (run_id : Text) (action : GatewayAction) (key : Text) (t u : Store)
    : Type 0 where
  pub newer : List RuntimeRunnerRequest
  pub rows : u.requests ≡ newer ++ t.requests
  pub others : All (λ r. is_request run_id action key r ≡ false) newer
  pub run : AgentRun
  pub there : get_run_by_id run_id u ≡ some run

-- A stored request is found in every later state.
pub IsAnswered-later :
    (run_id : Text) (action : GatewayAction) (key request_digest : Text) (response : RunnerResponse)
    (row : RuntimeRunnerRequest) (t u : Store)
    → get_request run_id action key t.requests ≡ some row
    → row.request_digest ≡ request_digest
    → row.response_json ≡ response
    → IsLater run_id action key t u
    → IsAnswered run_id action key request_digest response u
unfolding get_request
IsAnswered-later run_id action key request_digest response row t u stored digested answered later =
    record {
      run = later.run;
      there = later.there;
      row = row;
      stored =
          rw later.rows (
            find-later (is_request run_id action key) later.newer t.requests later.others ∙ stored);
      digested = digested;
      answered = answered;
    }

module _ (run_id : Text) (action : GatewayAction) (key request_digest : Text)
    (fresh : AgentRun → Db RunnerResponse) where
  pub once_there :
      (s : Store) (run : AgentRun)
      → get_run_by_id run_id s ≡ some run
      → once run_id action key request_digest fresh s
        ≡ (stored_response request_digest (get_request run_id action key s.requests) >>= λ replay.
              answer_or replay (fresh run))
            s
  unfolding once lock_run replay_or_conflict
  once_there s run there = ground arith

  once_absent :
      (s : Store)
      → get_run_by_id run_id s ≡ none
      → once run_id action key request_digest fresh s
        ≡ (err (runner_gateway_error GatewayCode.run_not_found), s)
  unfolding once lock_run
  once_absent s absent = ground arith

  pub once_again :
      (response : RunnerResponse) (s : Store)
      → IsAnswered run_id action key request_digest response s
      → once run_id action key request_digest fresh s ≡ (ok response, s)
  once_again response s h =
      let same : (h.row.request_digest == request_digest) ≡ true = (==_iff _ _).1 h.digested in
      once_there s h.run h.there ∙ rw (h.stored, same, h.answered) refl

  -- A key that was used for another request is refused.
  pub once_conflict :
      (s : Store) (run : AgentRun) (row : RuntimeRunnerRequest)
      → get_run_by_id run_id s ≡ some run
      → get_request run_id action key s.requests ≡ some row
      → row.request_digest ≢ request_digest
      → once run_id action key request_digest fresh s
        ≡ (err (runner_gateway_error GatewayCode.idempotency_conflict), s)
  once_conflict s run row there stored differ =
      let other : (row.request_digest == request_digest) ≡ false = ground arith in
      once_there s run there ∙ rw (stored, other) refl

  -- How a call that returns has gone: from the table, or afresh.
  pub once_ok :
      (response : RunnerResponse) (s t : Store)
      → once run_id action key request_digest fresh s ≡ (ok response, t)
      → (IsAnswered run_id action key request_digest response s × (t ≡ s))
        ⊎ ((run : AgentRun) × (get_run_by_id run_id s ≡ some run)
            × (get_request run_id action key s.requests ≡ none)
            × (fresh run s ≡ (ok response, t)))
  once_ok response s t h = elim (Option-cases (get_run_by_id run_id s)) [
    | inl absent ↦ absurd (err_ok (sym (once_absent s absent) ∙ h))
    | inr (run, there) ↦ elim (Option-cases (get_request run_id action key s.requests)) [
      | inl new ↦ inr (run, there, new, sym (once_there s run there ∙ rw new refl) ∙ h)
      | inr (row, stored) ↦ elim (Bool-cases (row.request_digest == request_digest)) [
        | inl same ↦
            let replayed = sym (once_there s run there ∙ rw (stored, same) refl) ∙ h in
            inl (
              record {
                run = run;
                there = there;
                row = row;
                stored = stored;
                digested = (==_iff row.request_digest request_digest).0 same;
                answered = (ok_ok replayed).0;
              },
              (ok_ok replayed).1,
            )
        | inr other ↦
            absurd (err_ok (sym (once_conflict s run row there stored (ground arith)) ∙ h))
      ]
    ]
  ]

module _ (encoded : Event → Option ℕ) (event_payload_max_bytes : ℕ)
    (digest : EventAppendRequest → Text) where
  abbrev written_row : Text → EventAppendRequest → Text → Store → RuntimeRunnerRequest
  written_row run_id request key s = record {
    run_id = run_id;
    action = event_append;
    idempotency_key = key;
    request_digest = digest request;
    response_json = event_appended (max_sequence run_id s.events + 1) request.sequence;
  }

  abbrev pub written : Text → EventAppendRequest → Text → Store → Store
  written run_id request key s = record s {
    events =
        record {
          run_id = run_id;
          sequence = max_sequence run_id s.events + 1;
          event = request.event;
        }
        ∷ s.events;
    requests = written_row run_id request key s ∷ s.requests;
  }

  -- What a new event writes, and when it is accepted.
  pub append_fresh_ok :
      (run_id : Text) (request : EventAppendRequest) (key : Text) (run : AgentRun)
      (response : RunnerResponse) (s t : Store)
      → append_fresh encoded event_payload_max_bytes digest run_id request key run s
        ≡ (ok response, t)
      → (is_running run.status ≡ true)
        × (request.sequence ≡ count_requests run_id event_append s.requests + 1)
        × (response ≡ event_appended (max_sequence run_id s.events + 1) request.sequence)
        × (t ≡ written run_id request key s)
  unfolding append_fresh require_active_run add_request
  append_fresh_ok run_id request key run response s t h = ground arith

  pub append_session_ok :
      (run_id : Text) (request : EventAppendRequest) (key : Text) (response : RunnerResponse)
      (s t : Store)
      → append_session encoded event_payload_max_bytes digest run_id request key s
        ≡ (ok response, t)
      → (size : ℕ) × (encoded request.event ≡ some size)
        × (ltb event_payload_max_bytes size ≡ false)
        × (once run_id event_append key
              (digest request)
              (append_fresh encoded event_payload_max_bytes digest run_id request key)
              s
            ≡ (ok response, t))
  unfolding append_session
  append_session_ok run_id request key response s t h =
      let after =
        once run_id event_append key (digest request)
          (append_fresh encoded event_payload_max_bytes digest run_id request key) in
      let (size, s1, got, rest) =
        bind_ok
          (or_raise (encoded request.event)
            (runner_gateway_error GatewayCode.event_payload_invalid))
          (λ size.
            refuse_if (ltb event_payload_max_bytes size) GatewayCode.event_payload_too_large
            >> after)
          s h in
      let (fits, same) =
        or_raise_ok (encoded request.event) (runner_gateway_error GatewayCode.event_payload_invalid)
          s got in
      let (v, s2, passed, last) =
        bind_ok (refuse_if (ltb event_payload_max_bytes size) GatewayCode.event_payload_too_large)
          (λ _. after) s1 rest in
      let (small, same2) =
        raise_if_ok (ltb event_payload_max_bytes size)
          (runner_gateway_error GatewayCode.event_payload_too_large) s1 passed in
      (size, fits, small, rw (← (same2 ∙ same)) last)

  append_session_again :
      (run_id : Text) (request : EventAppendRequest) (key : Text) (response : RunnerResponse)
      (size : ℕ) (s : Store)
      → encoded request.event ≡ some size
      → ltb event_payload_max_bytes size ≡ false
      → IsAnswered run_id event_append key (digest request) response s
      → append_session encoded event_payload_max_bytes digest run_id request key s
        ≡ (ok response, s)
  unfolding append_session
  append_session_again run_id request key response size s fits small h =
      rw (fits, small)
        (once_again run_id event_append key (digest request)
          (append_fresh encoded event_payload_max_bytes digest run_id request key) response s h)

  -- A runner that sends an event again, with the same idempotency key and at any later time, is
  -- given the first response, and nothing is written: whatever other requests were stored in the
  -- meantime, and whatever the status of the run is now.
  pub append_runner_event_replay :
      (run_id : Text) (request : EventAppendRequest) (key : Text) (response : RunnerResponse)
      (s t u : Store)
      → append_runner_event encoded event_payload_max_bytes digest run_id request key s
        ≡ (ok response, t)
      → IsLater run_id event_append key t u
      → append_runner_event encoded event_payload_max_bytes digest run_id request key u
        ≡ (ok response, u)
  unfolding append_runner_event get_request
  append_runner_event_replay run_id request key response s t u h later =
      let fresh = append_fresh encoded event_payload_max_bytes digest run_id request key in
      let session = append_session encoded event_payload_max_bytes digest run_id request key in
      let again = IsAnswered-later run_id event_append key (digest request) response in
      let (size, fits, small, done) =
        append_session_ok run_id request key response s t (transaction_ok session s h) in
      transaction_of_ok session u (
        append_session_again run_id request key response size u fits small
          (elim (once_ok run_id event_append key (digest request) fresh response s t done) [
            | inl (answered, same) ↦
                again answered.row t u (rw same answered.stored) answered.digested answered.answered
                  later
            | inr (run, there, new, made) ↦
                let (active, numbered, response_is, t_is) =
                  append_fresh_ok run_id request key run response s t made in
                let row = written_row run_id request key s in
                again row t u (rw (t_is, ==-self run_id, ==-self key) refl) refl
                  (rw response_is refl) later
          ]))
