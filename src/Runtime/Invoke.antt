-- ===== src/Runtime/Invoke.antt =====
-- `class ToolRuntime` of tool_governance_demo.py: the one entry by which tools are called.
use my_ai_agent_fullstack_tr.Base.{
  Bool, List, Option, [], contains, false, if◌then◌else◌, leb, list_eq, ltb, nat_eq, none,
  option_eq, pair_eq, some, suc, true, zero, ℕ, ◌&&◌, ◌++◌, ◌+◌, ◌/=◌, ◌==◌, ◌||◌, ◌∷◌,
}
use my_ai_agent_fullstack_tr.Domain.Models.{Text}
use my_ai_agent_fullstack_tr.Runtime.{
  ArgsModel, AuditPhase, AuditRecord, Code, DecisionAction, Effect, ExecutionContext, Outcome,
  Outside, Performance, PermissionDecision, PermissionRule, Shared, ToolCall, ToolDefinition,
  ToolResult, code_eq, decision_action_eq, effect_eq,
}
use my_ai_agent_fullstack_tr.Runtime.Args.{model_validate}
use my_ai_agent_fullstack_tr.Runtime.Engine.{decide_call}

-- How a call of `_execute_with_recovery` ends: `asyncio.timeout` fires, the handler raises, or it
-- returns; and what it took.
pub data Ending : Type 0 where
  returned timed_out exhausted raised : Ending
  refused : Code → Ending

pub record Recovery : Type 0 where
  pub ending : Ending
  pub attempts : ℕ
  pub pauses_ms : List ℕ
  pub after : Shared

-- The handlers suspend before their effects only, so a timeout that fires leaves no effect.
abbrev pub expires : ToolDefinition → Performance → Bool
expires tool p = ltb 0 p.waits && leb tool.policy.timeout_ms p.waits

-- `min(0.05 * (2**attempt), 0.2)`
unfoldable pub backoff_ms : ℕ → ℕ
backoff_ms zero = 50
backoff_ms (suc zero) = 100
backoff_ms (suc (suc n)) = 200

-- One more attempt in front.
abbrev pub once_more : ℕ → Recovery → Recovery
once_more pause r = record r { attempts = r.attempts + 1; pauses_ms = pause ∷ r.pauses_ms }

-- The end of an attempt after which there is no other.
abbrev pub ends_with : Ending → Shared → Recovery
ends_with e s = record { ending = e; attempts = 1; pauses_ms = []; after = s }

-- What is done with an attempt's outcome; `rest` is the remaining loop.
abbrev pub conclude : Outcome → Shared → Recovery → Recovery
conclude Outcome.returns s rest = ends_with Ending.returned s
conclude (Outcome.denied c) s rest = ends_with (Ending.refused c) s
conclude Outcome.transient s rest = rest
conclude Outcome.raises s rest = ends_with Ending.raised s

-- The loop over the attempts, with `left` retries after this attempt.
unfoldable pub attempt_loop :
    ToolDefinition → ArgsModel → ExecutionContext → ℕ → ℕ → Shared → Recovery
attempt_loop tool args context attempt zero s =
    let p = tool.handler args context s in
    if expires tool p
    then ends_with Ending.timed_out s
    else conclude p.outcome p.effects (ends_with Ending.exhausted p.effects)
attempt_loop tool args context attempt (suc left) s =
    let p = tool.handler args context s in
    let rest = attempt_loop tool args context (attempt + 1) left p.effects in
    if expires tool p
    then ends_with Ending.timed_out s
    else conclude p.outcome p.effects (once_more (backoff_ms attempt) rest)

abbrev pub is_repeatable : ToolDefinition → Bool
is_repeatable tool = tool.policy.effect == Effect.read || tool.policy.idempotent

-- `_execute_with_recovery`
unfoldable pub execute_with_recovery :
    ToolDefinition → ArgsModel → ExecutionContext → Shared → Recovery
unfolding attempt_loop
execute_with_recovery tool args context s =
    attempt_loop tool args context 0 (if is_repeatable tool then tool.policy.max_retries else 0) s

-- The `AuditRecord` about a call.
abbrev pub record_of : ToolCall → ExecutionContext → AuditPhase → Code → AuditRecord
record_of call context phase c = record {
  trace_id = context.trace_id;
  tool_call_id = call.tool_call_id;
  tool_name = call.tool_name;
  user_id = context.user_id;
  tenant_id = context.tenant_id;
  phase = phase;
  code = c;
}

-- `AuditSink.append`
abbrev pub append_record : ToolCall → ExecutionContext → AuditPhase → Code → Shared → Shared
append_record call context phase c s = record s {
  records = s.records ++ record_of call context phase c ∷ [];
}

abbrev pub result : Bool → DecisionAction → Code → ToolResult
result b a c = record { result_ok = b; result_action = a; result_code = c }

abbrev pub rejected : ToolCall → ExecutionContext → Code → Shared → ToolResult × Shared
rejected call context c s = (
  result false DecisionAction.deny c,
  append_record call context (AuditPhase.decided DecisionAction.deny) c s,
)

abbrev pub failed : ToolCall → ExecutionContext → Code → Shared → ToolResult × Shared
failed call context c s =
    (result false DecisionAction.deny c, append_record call context AuditPhase.failed c s)

-- The handlers of the exceptions, and `finalize`.
abbrev pub report :
    ToolDefinition → ToolCall → ExecutionContext → Ending → Shared → ToolResult × Shared
report tool call context Ending.returned s = (
  result true DecisionAction.allow Code.success,
  append_record call context AuditPhase.executed Code.success s,
)
report tool call context Ending.timed_out s =
    failed call context (if is_repeatable tool then Code.timeout else Code.timeout_unknown) s
report tool call context (Ending.refused c) s = failed call context c s
report tool call context Ending.exhausted s = failed call context Code.tool_error s
report tool call context Ending.raised s = failed call context Code.tool_error s

-- `execute` and `finalize`.
unfoldable pub execute_call :
    ToolDefinition → ToolCall → ArgsModel → ExecutionContext → Shared → ToolResult × Shared
unfolding execute_with_recovery
execute_call tool call args context s =
    let r = execute_with_recovery tool args context s in report tool call context r.ending r.after

-- What follows the decision: it is recorded, and the handler runs only when it is `ALLOW`.
abbrev pub after_decision :
    ToolDefinition
    → ToolCall
    → ArgsModel
    → ExecutionContext
    → Option PermissionDecision
    → Shared
    → Option ToolResult × Shared
after_decision tool call args context none s = (none, s)
after_decision tool call args context (some d) s =
    let s' = append_record call context (AuditPhase.decided d.action) d.code s in
    if d.action /= DecisionAction.allow
    then (some (result false d.action d.code), s')
    else (let (r, s'') = execute_call tool call args context s' in (some r, s''))

-- A call of a known tool, with validated arguments.
unfoldable pub invoke_valid :
    Outside
    → List PermissionRule
    → ToolDefinition
    → ToolCall
    → ArgsModel
    → ExecutionContext
    → Shared
    → Option ToolResult × Shared
unfolding execute_call
invoke_valid out rules tool call args context s =
    let (d, s') = decide_call out rules tool args context s in
    after_decision tool call args context d s'

-- `self._tools.get`
unfoldable pub find_tool : Text → List ToolDefinition → Option ToolDefinition
find_tool n [] = none
find_tool n (tool ∷ tools) =
    let rest = find_tool n tools in if tool.name == n then some tool else rest

abbrev pub after_validation :
    Outside
    → List PermissionRule
    → ToolDefinition
    → ToolCall
    → ExecutionContext
    → Shared
    → Option ArgsModel
    → Option ToolResult × Shared
unfolding invoke_valid
after_validation out rules tool call context s none =
    let (r, s') = rejected call context Code.invalid_argument s in (some r, s')
after_validation out rules tool call context s (some args) =
    invoke_valid out rules tool call args context s

abbrev pub with_tool :
    Outside
    → List PermissionRule
    → ToolCall
    → ExecutionContext
    → Shared
    → Option ToolDefinition
    → Option ToolResult × Shared
with_tool out rules call context s none =
    let (r, s') = rejected call context Code.tool_not_found s in (some r, s')
with_tool out rules call context s (some tool) =
    after_validation out rules tool call context s
      (model_validate tool.parameters_model call.arguments)

-- `ToolRuntime.invoke`; `none` is an exception that it does not catch.
unfoldable pub invoke :
    Outside
    → List PermissionRule
    → List ToolDefinition
    → ToolCall
    → ExecutionContext
    → Shared
    → Option ToolResult × Shared
unfolding find_tool
invoke out rules tools call context s =
    with_tool out rules call context s (find_tool call.tool_name tools)

-- `model_tools`: the names of the tools that are shown to the model.
unfoldable model_tools : List ToolDefinition → ExecutionContext → List Text
model_tools [] context = []
model_tools (tool ∷ tools) context =
    let rest = model_tools tools context in
    if contains tool.name context.allowed_tools then tool.name ∷ rest else rest
