-- ===== src/Dispatch/Replay.antt =====
-- A tool call that arrives a second time.
use forge_engine.Prelude.{
  ◌≡◌, refl, sym, subst, ap, ◌∙◌, true, false, ◌||◌, not, Option, none, some, ◌==◌, nat_eq, arith,
}
use forge_engine.Execution.Policy.{validate, phase7_policy}
use forge_engine.Dispatch.Events.{ExecutionEvent, find_event, append_event, Carries, find-append}
use forge_engine.Dispatch.Result.{ToolResult}
use forge_engine.Dispatch.Tools.{ToolCall, ToolEnv, State, dispatch_tool}
use forge_engine.Dispatch.{
  Response, cached, policy_path, is_keyed, cached_event, is_success, result_event, respond,
  execute_call, tool_dispatch,
}

-- The call passes the checks and is executed.
abbrev pub IsExecuted : ToolEnv → ToolCall → State → Type 0
IsExecuted env call st =
    ((call.tool == "" || not (nat_eq call.version 1)) ≡ false)
    × (cached_event env.lookup_ok call st.events ≡ none)
    × (validate phase7_policy call.tool (policy_path call) ≡ none)

executed :
    (env : ToolEnv) (call : ToolCall) (st : State)
    → IsExecuted env call st
    → tool_dispatch env call st ≡ execute_call env call st
unfolding tool_dispatch
executed env call st (v, c, p) = rw (v, c, p) refl

keyed_parts :
    (call : ToolCall)
    → is_keyed call ≡ true
    → ((call.tool_call_id == "") ≡ false) × ((call.exec_id == "") ≡ false)
keyed_parts call k = ground arith

stored_events :
    (env : ToolEnv) (call : ToolCall) (st : State)
    → (call.exec_id == "") ≡ false
    → env.append_ok ≡ true
    → (execute_call env call st).0.events
      ≡ append_event true
          (result_event call (dispatch_tool env call st).1)
          (dispatch_tool env call st).0.events
unfolding execute_call
stored_events env call st n a = rw (n, a) refl

-- The second call finds the first one's event.
found_again :
    (env env' : ToolEnv) (call : ToolCall) (st : State)
    → is_keyed call ≡ true
    → env.append_ok ≡ true
    → env'.lookup_ok ≡ true
    → Carries
        (result_event call (dispatch_tool env call st).1)
        (cached_event env'.lookup_ok call (execute_call env call st).0.events)
unfolding cached_event
found_again env env' call st k a l =
    let (id, exec) = keyed_parts call k in
    rw (k, l)
      (subst (λ events. Carries new (find_event call.tool_call_id events))
        (sym (stored_events env call st exec a))
        (find-append call.tool_call_id new (dispatch_tool env call st).0.events (rw id refl)))
  where
    new : ExecutionEvent
    new = result_event call (dispatch_tool env call st).1

-- What is answered from the cache: the result that the first call gave.
abbrev pub Replays : State → Response → State × Response → Type 0
Replays st first again =
    (e : ExecutionEvent) × (again ≡ (st, cached e))
    × (first ≡ respond e.tool_result)
    × (e.success ≡ is_success e.tool_result)

answer_again :
    (env : ToolEnv) (call : ToolCall) (st : State) (result : Option ToolResult)
    (o : Option ExecutionEvent)
    → ((call.tool == "" || not (nat_eq call.version 1)) ≡ false)
    → cached_event env.lookup_ok call st.events ≡ o
    → Carries (result_event call result) o
    → Replays st (respond result) (tool_dispatch env call st)
unfolding tool_dispatch
answer_again env call st result none v c h = absurd h
answer_again env call st result (some e) v c (s, r) =
    (e, rw (v, c) refl, ap respond (sym r), s ∙ ap is_success (sym r))

-- A call with an id that was executed, and whose event was stored, changes nothing when it arrives
-- again, under any answers of the driver: it is answered from its event, which holds the result that
-- was given the first time. The lookup of the event runs.
pub tool_dispatch-Replays :
    (env env' : ToolEnv) (call : ToolCall) (st : State)
    → IsExecuted env call st
    → is_keyed call ≡ true
    → env.append_ok ≡ true
    → env'.lookup_ok ≡ true
    → let (st', first) = tool_dispatch env call st in
      Replays st' first (tool_dispatch env' call st')
unfolding execute_call dispatch_tool
tool_dispatch-Replays env env' call st x k a l =
    subst (λ (r : State × Response). Replays r.0 r.1 (tool_dispatch env' call r.0))
      (sym (executed env call st x))
      (answer_again env' call (execute_call env call st).0 (dispatch_tool env call st).1 _ x.0 refl
        (found_again env env' call st k a l))
