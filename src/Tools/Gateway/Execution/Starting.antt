-- ===== src/Tools/Gateway/Execution/Starting.antt =====
-- How a call is put on record before its tool is set to work.
use mathlib.Core.Path.{subst}
use intelligent_agent_platfo.Base.{
  ℕ, ◌≡◌, sym, ap, inl, inr, true, false, arith, count, ==-self, is_some, Bool-cases, Option-cases,
}
use intelligent_agent_platfo.Effects.{Result, ok, err, ◌>>=◌, ◌>>◌, gets, pure, raise}
use intelligent_agent_platfo.Effects.Hoare.{Outcome}
use intelligent_agent_platfo.Effects.Inversion.{bind_ok, transaction_ok}
use intelligent_agent_platfo.Effects.Stays.{Stays, Stays-bind}
use intelligent_agent_platfo.Database.{
  Text, Store, AgentRun, ToolInvocation, InvocationStatus, Exception, Db,
}
use intelligent_agent_platfo.Conversations.Repository.{get_run_by_id, get_tool_invocation}
use intelligent_agent_platfo.Tools.Gateway.{
  ToolCall, ToolExecutionContext, ToolServices, World, Io, lock_active_run, insert_invocation,
  announce_started, commit_started, session, catch,
}
use intelligent_agent_platfo.Tools.Gateway.Records.{
  Held, announce_started-Held, commit_started-Held,
}
use intelligent_agent_platfo.Tools.Gateway.Execution.{new_invocation, start_error, start_call}
use intelligent_agent_platfo.Tools.Gateway.Execution.Sessions.{
  is_call, recorded, IsOnce, KeepsRecords, session-IsOnce, catch-IsOnce,
}

lock_active_run_ok :
    (run_id : Text) (run : AgentRun) (s t : Store) → lock_active_run run_id s ≡ (ok run, t) → t ≡ s
unfolding lock_active_run
lock_active_run_ok run_id run s t h = elim (Option-cases (get_run_by_id run_id s)) [
  | inl absent ↦ ground (arith, absent)
  | inr (r, there) ↦ ground (arith, there)
]

insert_invocation_ok :
    (invocation : ToolInvocation) (v : Unit {0}) (s t : Store)
    → insert_invocation invocation s ≡ (ok v, t)
    → (recorded invocation.run_id invocation.tool_call_id s ≡ false)
      × Held invocation.run_id invocation.tool_call_id t
unfolding insert_invocation get_tool_invocation
insert_invocation_ok invocation v s t h =
    elim (Option-cases (get_tool_invocation invocation.run_id invocation.tool_call_id s)) [
      | inl new ↦
          (ground arith, ground (arith, ==-self invocation.run_id, ==-self invocation.tool_call_id))
      | inr (old, there) ↦ ground (arith, there)
    ]

-- A call that is put on record was not there.
commit_started_ok :
    (invocation : ToolInvocation) (context : ToolExecutionContext) (v : Unit {0}) (s t : Store)
    → commit_started invocation context s ≡ (ok v, t)
    → (recorded invocation.run_id invocation.tool_call_id s ≡ false)
      × Held invocation.run_id invocation.tool_call_id t
unfolding commit_started
commit_started_ok invocation context v s t h =
    let insert = insert_invocation invocation in
    let announce = announce_started invocation context in
    let K = Held invocation.run_id invocation.tool_call_id in
    let (run, s1, locked, rest) =
      bind_ok (lock_active_run invocation.run_id) (λ _. insert >> announce) s h in
    let same = lock_active_run_ok invocation.run_id run s s1 locked in
    let (u, s2, inserted, last) = bind_ok insert (λ _. announce) s1 rest in
    let (new, held) = insert_invocation_ok invocation u s1 s2 inserted in
    (
      rw (← same) new,
      subst (Outcome {E = Exception} (λ (_ : Unit {0}). K)) last (
          announce_started-Held invocation.run_id invocation.tool_call_id invocation context s2
            held),
    )

catch_ok :
    {A : Type 0} (m : Io A) (handler : Exception → Io A) (w v : World) (a : A)
    → ((e : Exception) (u : World) → handler e u ≡ (ok a, v) → ⊥)
    → catch m handler w ≡ (ok a, v)
    → m w ≡ (ok a, v)
catch_ok {A} m handler w v a never h = go (m w) h
  where
    go :
        (x : Result Exception A × World)
        → (let (r, u) = x in
            elim r as (λ _. Result Exception A × World) [ ok b ↦ (ok b, u) | err e ↦ handler e u ])
          ≡ (ok a, v)
        → x ≡ (ok a, v)
    go (ok b, u) k = k
    go (err e, u) k = absurd (never e u k)

session_ok :
    {A : Type 0} (services : ToolServices) (m : ℕ → Db A) (w v : World) (a : A)
    → session services m w ≡ (ok a, v)
    → (m w.tick (services.others w.tick w.store) ≡ (ok a, v.store))
      × (v.carried_out ≡ w.carried_out)
unfolding session
session_ok {A} services m w v a h = (
  transaction_ok (m w.tick) (services.others w.tick w.store)
      (ap (λ (x : Result Exception A × World). (x.0, x.1.store)) h),
  sym (ap (λ (x : Result Exception A × World). x.1.carried_out) h),
)

module _ (services : ToolServices) (keeps : KeepsRecords services) (call : ToolCall)
    (context : ToolExecutionContext) where
  -- The call is on record and was not carried out.
  abbrev pub IsStarted : World → Type 0
  IsStarted w =
      IsOnce w
      × (recorded context.run_id call.id w.store ≡ true)
      × (count (is_call context.run_id call.id) w.carried_out ≡ 0)

  abbrev opened : Text → ℕ → ToolInvocation
  opened fresh n =
      new_invocation call context InvocationStatus.started (services.summarize call.arguments) fresh
        (services.clock n 0)

  abbrev refused : Exception → Io Text
  refused e =
      gets (λ w. is_some (get_tool_invocation context.run_id call.id w.store)) >>= λ duplicate.
      raise (start_error e duplicate)

  pub start_call-IsOnce : Stays IsOnce (start_call services call context)
  unfolding start_call
  start_call-IsOnce w =
      let fresh = services.fresh w.tick in
      let begin = session services (λ n. commit_started (opened fresh n) context) in
      catch-IsOnce services keeps (begin >> pure fresh) refused
        (Stays-bind IsOnce begin (λ _. pure fresh)
          (session-IsOnce services keeps (λ n. commit_started (opened fresh n) context)
            (λ n run_id call_id. commit_started-Held run_id call_id (opened fresh n) context))
          (λ _ u h. h))
        (λ e u h. h) w

  pub start_call-IsStarted :
      (w v : World) (id : Text)
      → IsOnce w
      → start_call services call context w ≡ (ok id, v)
      → IsStarted v
  unfolding start_call get_tool_invocation
  start_call-IsStarted w v id h done =
      let fresh = services.fresh w.tick in
      let begin = session services (λ n. commit_started (opened fresh n) context) in
      let returned = catch_ok (begin >> pure fresh) refused w v id (λ e u k. cc) done in
      let (tt', u, began, last) = bind_ok begin (λ _. pure fresh) w returned in
      let (committed, carried) =
        session_ok services (λ n. commit_started (opened fresh n) context) w u tt' began in
      let (new, held) =
        commit_started_ok (opened fresh w.tick) context tt' (services.others w.tick w.store) u.store
          committed in
      let same : v ≡ u = ground arith in
      (
        subst (λ (x : Result Exception Text × World). IsOnce x.1) done (start_call-IsOnce w h),
        rw same held,
        elim (Bool-cases (recorded context.run_id call.id w.store)) [
          | inl there ↦
              let still = keeps w.tick context.run_id call.id w.store there in absurd (ground arith)
          | inr absent ↦ let few = h context.run_id call.id in ground arith
        ],
      )
