-- ===== src/Tools/Gateway/Execution/Once.antt =====
-- How often the tool of a call is set to work.
use mathlib.Core.Path.{subst}
use intelligent_agent_platfo.Base.{
  suc, ◌≡◌, refl, inl, inr, Bool, true, false, ◌&&◌, not, Option, none, some, List, arith, count,
  elem, ==_iff, if◌then◌else◌, is_some, Bool-cases, Option-cases,
}
use intelligent_agent_platfo.Effects.{Result, ok, err, ◌>>=◌, ◌>>◌, gets, raise, or_raise, raise_if}
use intelligent_agent_platfo.Effects.Stays.{Stays, Stays-bind, Stays-if}
use intelligent_agent_platfo.Database.{Text, ErrorCode, Exception, tool_runtime_error}
use intelligent_agent_platfo.Conversations.Repository.{get_tool_invocation}
use intelligent_agent_platfo.Tools.Gateway.{
  Tool, ToolCall, ToolExecutionContext, ToolServices, World, Io, session, carry_out,
}
use intelligent_agent_platfo.Tools.Gateway.Execution.{
  ToolExecutionResult, needs_approval, is_mcp, reject_invalid, outcome_of, request_approval,
  pause_for_approval, start_call, finish_call, run_call, execute,
}
use intelligent_agent_platfo.Tools.Gateway.Execution.Sessions.{
  is_call, recorded, IsOnce, KeepsRecords, request_approval-Held, session-IsOnce, raise-IsOnce,
  finish_call-IsOnce,
}
use intelligent_agent_platfo.Tools.Gateway.Execution.Starting.{
  IsStarted, start_call-IsOnce, start_call-IsStarted,
}

module _ (services : ToolServices) (keeps : KeepsRecords services) (call : ToolCall)
    (context : ToolExecutionContext) where
  after_ok :
      {A B : Type 0} (m : Io A) (f : A → Io B) (w : World)
      → IsOnce (m w).1
      → ((a : A) (v : World) → m w ≡ (ok a, v) → IsOnce (f a v).1)
      → IsOnce ((m >>= f) w).1
  after_ok {A} {B} m f w h k = go (m w) h k
    where
      go :
          (x : Result Exception A × World)
          → IsOnce x.1
          → ((a : A) (v : World) → x ≡ (ok a, v) → IsOnce (f a v).1)
          → IsOnce
              (let (r, v) = x in
                elim r as (λ _. Result Exception B × World) [ ok a ↦ f a v | err e ↦ (err e, v) ]).1
      go (ok a, v) q j = j a v refl
      go (err e, v) q j = q

  carry_out-IsOnce :
      (w : World)
      → IsStarted services keeps call context w
      → IsOnce (carry_out services context.run_id call.id w).1
  unfolding carry_out
  carry_out-IsOnce w (h, there, fresh) run_id call_id =
      elim (Bool-cases (is_call run_id call_id (context.run_id, call.id))) [
        | inl same ↦
            let run : context.run_id ≡ run_id = ground (arith, ==_iff context.run_id run_id) in
            let this : call.id ≡ call_id = ground (arith, ==_iff call.id call_id) in
            let P : Text → Text → Type 0 =
              λ r c. (recorded r c w.store ≡ true) × (count (is_call r c) w.carried_out ≡ 0) in
            let (held, new) =
              subst (λ r. P r call_id) run (subst (P context.run_id) this (there, fresh)) in
            rw (same, held) (omega (arith, new))
        | inr other ↦ rw other (h run_id call_id)
      ]

  run_call-IsOnce : (tool : Tool) → Stays IsOnce (run_call services call tool context)
  unfolding run_call carry_out
  run_call-IsOnce tool w h =
      let work : Text → Io ToolExecutionResult = λ id.
        carry_out services context.run_id call.id >>= λ answer.
        gets (λ v. services.duration_ms v.tick) >>= λ duration_ms.
        finish_call services context id duration_ms (outcome_of services tool answer) in
      after_ok (start_call services call context) work w
        (start_call-IsOnce services keeps call context w h)
        λ id v done.
          finish_call-IsOnce services keeps context id (services.duration_ms (suc v.tick))
            (outcome_of services tool (services.answer v.tick))
            (carry_out services context.run_id call.id v).1
            (carry_out-IsOnce v (start_call-IsStarted services keeps call context w v id h done))

  pause-IsOnce : (tool : Tool) → Stays IsOnce (pause_for_approval services call tool context)
  unfolding pause_for_approval
  pause-IsOnce tool =
      Stays-bind IsOnce (session services (request_approval services call tool context))
        (λ _. raise (tool_runtime_error ErrorCode.approval_required))
        (session-IsOnce services keeps (request_approval services call tool context)
          (request_approval-Held services call tool context))
        (λ _.
          raise-IsOnce services keeps ToolExecutionResult
            (tool_runtime_error ErrorCode.approval_required))

  -- If other sessions delete no tool invocation: executing a call, however often, keeps it so
  -- that the tool of each call was set to work at most once, and only for a call that is on
  -- record.
  pub execute-IsOnce :
      (authorized_tool_ids : List Text) (w : World)
      → IsOnce w
      → IsOnce (execute services call context authorized_tool_ids w).1
  unfolding execute
  execute-IsOnce authorized_tool_ids =
      Stays-bind IsOnce
        (refuse (not (elem call.name authorized_tool_ids)) ErrorCode.tool_not_authorized)
        (λ _. find_tool >>= with_tool)
        (refuse-IsOnce (not (elem call.name authorized_tool_ids)) ErrorCode.tool_not_authorized)
        λ _. Stays-bind IsOnce find_tool with_tool find_tool-IsOnce λ tool.
          Stays-bind IsOnce (refuse (no_executor tool) ErrorCode.tool_execution_failed)
            (λ _. duplicate >>= go_on tool)
            (refuse-IsOnce (no_executor tool) ErrorCode.tool_execution_failed)
            λ _.
              Stays-bind IsOnce duplicate (go_on tool) (λ w h. h)
                λ known.
                  Stays-bind IsOnce (refuse known ErrorCode.tool_duplicate_call)
                    (λ _. validate tool >> last tool)
                    (refuse-IsOnce known ErrorCode.tool_duplicate_call)
                    λ _.
                      Stays-bind IsOnce (validate tool) (λ _. last tool)
                        (validate-IsOnce (services.check_input tool call.arguments))
                        λ _.
                          Stays-if IsOnce (needs_approval tool)
                            (pause_for_approval services call tool context)
                            (run_call services call tool context) (pause-IsOnce tool)
                            (run_call-IsOnce tool)
    where
      refuse : Bool → ErrorCode → Io (Unit {0})
      refuse b code = raise_if b (tool_runtime_error code)

      refuse-IsOnce : (b : Bool) (code : ErrorCode) → Stays IsOnce (refuse b code)
      refuse-IsOnce true code w h = h
      refuse-IsOnce false code w h = h

      find_tool : Io Tool
      find_tool =
          or_raise (services.get_executable call.name)
            (tool_runtime_error ErrorCode.tool_not_authorized)

      find_tool-IsOnce : Stays IsOnce find_tool
      find_tool-IsOnce w h = elim (Option-cases (services.get_executable call.name)) [
        | inl missing ↦ rw missing h
        | inr (tool, there) ↦ rw there h
      ]

      no_executor : Tool → Bool
      no_executor tool = not (services.has_executor call.name) && not (is_mcp tool.source)

      duplicate : Io Bool
      duplicate = gets (λ w. is_some (get_tool_invocation context.run_id call.id w.store))

      validate : Tool → Io (Unit {0})
      validate tool = reject_invalid (services.check_input tool call.arguments)

      validate-IsOnce : (o : Option ErrorCode) → Stays IsOnce (reject_invalid o)
      validate-IsOnce none w h = h
      validate-IsOnce (some code) w h = h

      last : Tool → Io ToolExecutionResult
      last tool =
          if needs_approval tool
          then pause_for_approval services call tool context
          else run_call services call tool context

      go_on : Tool → Bool → Io ToolExecutionResult
      go_on tool known = refuse known ErrorCode.tool_duplicate_call >> (validate tool >> last tool)

      with_tool : Tool → Io ToolExecutionResult
      with_tool tool =
          refuse (no_executor tool) ErrorCode.tool_execution_failed >> (duplicate >>= go_on tool)
