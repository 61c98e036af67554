-- ===== src/Runtime/Grants.antt =====
-- Approvals over any sequence of operations of tool_governance_demo.py.
use my_ai_agent_fullstack_tr.Base.{
  Bool-cases, List, Option, [], ap, arith, false, if◌then◌else◌, inl, inr, list_eq, nat_eq, none,
  option_eq, pair_eq, refl, some, ℕ, ◌+◌, ◌/=◌, ◌==◌, ◌∙◌, ◌∷◌, ◌≡◌, ◌≤◌,
}
use my_ai_agent_fullstack_tr.Domain.Models.{Text}
use my_ai_agent_fullstack_tr.Runtime.{
  ApprovalRecord, ArgsModel, AuditPhase, DecisionAction, ExecutionContext, Outside,
  PermissionDecision, PermissionRule, Shared, ToolCall, ToolDefinition, decision_action_eq,
}
use my_ai_agent_fullstack_tr.Runtime.Approvals.{approve}
use my_ai_agent_fullstack_tr.Runtime.Args.{model_validate}
use my_ai_agent_fullstack_tr.Runtime.Course.{
  Every, decision_on, find_tool-Every, tool_decision, valid_decision,
}
use my_ai_agent_fullstack_tr.Runtime.Engine.{decide_call}
use my_ai_agent_fullstack_tr.Runtime.Invoke.{
  Ending, after_decision, after_validation, append_record, execute_call, execute_with_recovery,
  find_tool, invoke, invoke_valid, report, with_tool,
}
use my_ai_agent_fullstack_tr.Runtime.OneUse.{decide_call-live, live, live_record, spends, spent}
use my_ai_agent_fullstack_tr.Runtime.Tools.{
  build_tools, create_refund_handler, create_refund_tool, get_order_handler, get_order_tool,
  run_shell_tool, simulated_shell_handler, transfer_handler, transfer_tool,
}
use my_ai_agent_fullstack_tr.Runtime.Transfers.{Request}
use my_ai_agent_fullstack_tr.Runtime.Untouched.{Untouching, execute_with_recovery-part}
use my_ai_agent_fullstack_tr.Storage.Table.{lookup, lookup-put}

get_order_handler-approvals :
    (args : ArgsModel) (context : ExecutionContext) (s : Shared)
    → (get_order_handler args context s).effects.approvals ≡ s.approvals
unfolding get_order_handler
get_order_handler-approvals (ArgsModel.get_order order_id) context s = ground (arith)
get_order_handler-approvals (ArgsModel.create_refund order_id amount why) context s = refl
get_order_handler-approvals (ArgsModel.run_shell command) context s = refl
get_order_handler-approvals (ArgsModel.transfer from_account to_account amount) context s = refl

create_refund_handler-approvals :
    (args : ArgsModel) (context : ExecutionContext) (s : Shared)
    → (create_refund_handler args context s).effects.approvals ≡ s.approvals
unfolding create_refund_handler
create_refund_handler-approvals (ArgsModel.get_order order_id) context s = refl
create_refund_handler-approvals (ArgsModel.create_refund order_id amount why) context s = refl
create_refund_handler-approvals (ArgsModel.run_shell command) context s = refl
create_refund_handler-approvals (ArgsModel.transfer from_account to_account amount) context s = refl

simulated_shell_handler-approvals :
    (args : ArgsModel) (context : ExecutionContext) (s : Shared)
    → (simulated_shell_handler args context s).effects.approvals ≡ s.approvals
unfolding simulated_shell_handler
simulated_shell_handler-approvals (ArgsModel.get_order order_id) context s = refl
simulated_shell_handler-approvals (ArgsModel.create_refund order_id amount why) context s = refl
simulated_shell_handler-approvals (ArgsModel.run_shell command) context s = refl
simulated_shell_handler-approvals (ArgsModel.transfer from_account to_account amount) context s =
    refl

transfer_handler-approvals :
    (args : ArgsModel) (context : ExecutionContext) (s : Shared)
    → (transfer_handler args context s).effects.approvals ≡ s.approvals
unfolding transfer_handler
transfer_handler-approvals (ArgsModel.get_order order_id) context s = refl
transfer_handler-approvals (ArgsModel.create_refund order_id amount why) context s = refl
transfer_handler-approvals (ArgsModel.run_shell command) context s = refl
transfer_handler-approvals (ArgsModel.transfer from_account to_account amount) context s =
    ground (arith)

-- A tool that cannot touch the store of approvals.
Guarded : ToolDefinition → Type 0
Guarded tool = Untouching (λ s. s.approvals) tool

build_tools-Guarded : (print : ℕ → Text) → Every Guarded (build_tools print)
unfolding build_tools get_order_tool create_refund_tool run_shell_tool transfer_tool Guarded
build_tools-Guarded print =
    Every.tool_and (record { keeps = get_order_handler-approvals })
      (Every.tool_and (record { keeps = create_refund_handler-approvals })
        (Every.tool_and (record { keeps = simulated_shell_handler-approvals })
          (Every.tool_and (record { keeps = transfer_handler-approvals }) Every.no_tool)))

report-approvals :
    (tool : ToolDefinition) (call : ToolCall) (context : ExecutionContext) (e : Ending) (s : Shared)
    → (report tool call context e s).1.approvals ≡ s.approvals
report-approvals tool call context Ending.returned s = refl
report-approvals tool call context Ending.timed_out s = refl
report-approvals tool call context Ending.exhausted s = refl
report-approvals tool call context Ending.raised s = refl
report-approvals tool call context (Ending.refused c) s = refl

after_decision-approvals :
    (tool : ToolDefinition) (call : ToolCall) (args : ArgsModel) (context : ExecutionContext)
    (d : Option PermissionDecision) (s : Shared)
    → Guarded tool
    → (after_decision tool call args context d s).1.approvals ≡ s.approvals
unfolding execute_call Guarded
after_decision-approvals tool call args context none s g = refl
after_decision-approvals tool call args context (some d) s g =
    let s1 = append_record call context (AuditPhase.decided d.action) d.code s in
    let r = execute_with_recovery tool args context s1 in
    let e : r.after.approvals ≡ s.approvals =
      execute_with_recovery-part (λ b. b.approvals) tool args context s1 g in
    elim (Bool-cases (d.action /= DecisionAction.allow)) [
      | inl k ↦ rw (k) refl
      | inr k ↦ rw (k) (report-approvals tool call context r.ending r.after ∙ e)
    ]

validated-live :
    (id : Text) (out : Outside) (rules : List PermissionRule) (tool : ToolDefinition)
    (call : ToolCall) (context : ExecutionContext) (s : Shared)
    → Guarded tool
    → (o : Option ArgsModel)
    → spent id context (valid_decision out rules tool context s o)
        + live id (after_validation out rules tool call context s o).1
      ≡ live id s
unfolding spent spends live invoke_valid
validated-live id out rules tool call context s g none = ground (arith)
validated-live id out rules tool call context s g (some args) =
    let (d, s1) = decide_call out rules tool args context s in
    ap (λ t. spent id context d + live_record (lookup id t))
      (after_decision-approvals tool call args context d s1 g)
    ∙ decide_call-live id out rules tool args context s

found-live :
    (id : Text) (out : Outside) (rules : List PermissionRule) (tools : List ToolDefinition)
    (call : ToolCall) (context : ExecutionContext) (s : Shared)
    → Every Guarded tools
    → (o : Option ToolDefinition) → find_tool call.tool_name tools ≡ o
    → spent id context (tool_decision out rules call context s o)
        + live id (with_tool out rules call context s o).1
      ≡ live id s
unfolding spent spends live
found-live id out rules tools call context s all none f = ground (arith)
found-live id out rules tools call context s all (some tool) f =
    validated-live id out rules tool call context s
      (find_tool-Every Guarded call.tool_name tools tool all f)
      (model_validate tool.parameters_model call.arguments)

invoke-live :
    (id : Text) (out : Outside) (rules : List PermissionRule) (tools : List ToolDefinition)
    (call : ToolCall) (context : ExecutionContext) (s : Shared)
    → Every Guarded tools
    → spent id context (decision_on out rules tools call context s)
        + live id (invoke out rules tools call context s).1
      ≡ live id s
unfolding invoke decision_on
invoke-live id out rules tools call context s all =
    found-live id out rules tools call context s all (find_tool call.tool_name tools) refl

-- What is done to the store: someone approves, or the runtime serves a request.
pub data Operation : Type 0 where
  grant : Outside → Text → ExecutionContext → Text → ArgsModel → ℕ → Operation
  request : Request → Operation

unfoldable perform : List ToolDefinition → Operation → Shared → Shared
perform tools (Operation.grant out id context name args ttl_ms) s =
    approve out id context name args ttl_ms s
perform tools (Operation.request q) s = (invoke q.outside q.rules tools q.call q.context s).1

-- How often the sequence approves under this identifier.
unfoldable pub granted : Text → List Operation → ℕ
granted id [] = 0
granted id (Operation.grant out key context name args ttl_ms ∷ ops) =
    (if key == id then 1 else 0) + granted id ops
granted id (Operation.request q ∷ ops) = granted id ops

-- How many of its calls are allowed by the approval of this identifier.
unfoldable pub used_up : Text → List ToolDefinition → List Operation → Shared → ℕ
unfolding perform
used_up id tools [] s = 0
used_up id tools (Operation.grant out key context name args ttl_ms ∷ ops) s =
    used_up id tools ops (perform tools (Operation.grant out key context name args ttl_ms) s)
used_up id tools (Operation.request q ∷ ops) s =
    spent id q.context (decision_on q.outside q.rules tools q.call q.context s)
    + used_up id tools ops (perform tools (Operation.request q) s)

approve-live :
    (id key : Text) (out : Outside) (context : ExecutionContext) (name : Text) (args : ArgsModel)
    (ttl_ms : ℕ) (s : Shared)
    → live id (approve out key context name args ttl_ms s)
      ≤ live id s + (if key == id then 1 else 0)
unfolding approve live live_record
approve-live id key out context name args ttl_ms s =
    let r : ApprovalRecord = record {
      user_id = context.user_id;
      tenant_id = context.tenant_id;
      tool_name = name;
      digest = out.approval_digest name args;
      expires_at = out.time_ms + ttl_ms;
      used = false;
    } in
    ground (arith, lookup-put key id r s.approvals)

-- In any sequence of approvals and calls of the four tools, no more calls are allowed by the approval
-- of an identifier than it was given under that identifier, and one more if it was there unused.
pub used_up_bound :
    (print : ℕ → Text) (id : Text) (ops : List Operation) (s : Shared)
    → used_up id (build_tools print) ops s ≤ granted id ops + live id s
unfolding used_up granted perform
used_up_bound print id [] s = omega arith
used_up_bound print id (Operation.grant out key context name args ttl_ms ∷ ops) s = omega (
  arith,
  used_up_bound print id ops (approve out key context name args ttl_ms s),
  approve-live id key out context name args ttl_ms s,
)
used_up_bound print id (Operation.request q ∷ ops) s =
    let s' = (invoke q.outside q.rules (build_tools print) q.call q.context s).1 in
    omega (
      arith,
      used_up_bound print id ops s',
      invoke-live id q.outside q.rules (build_tools print) q.call q.context s
          (build_tools-Guarded print),
    )
