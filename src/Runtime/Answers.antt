-- ===== src/Runtime/Answers.antt =====
-- Every call of the four tools of tool_governance_demo.py is answered, and its answer recorded.
use my_ai_agent_fullstack_tr.Base.{List, Option, arith, none, refl, some, subst, sym, ℕ, ◌≡◌, ◌≢◌}
use my_ai_agent_fullstack_tr.Domain.Models.{Text}
use my_ai_agent_fullstack_tr.Runtime.{
  ArgsModel, Code, ExecutionContext, Outside, PermissionDecision, PermissionRule, Shared, ToolCall,
  ToolDefinition, Verdict,
}
use my_ai_agent_fullstack_tr.Runtime.Args.{
  create_refund_args_shape, model_validate, transfer_args_shape,
}
use my_ai_agent_fullstack_tr.Runtime.Course.{Every, find_tool-Every}
use my_ai_agent_fullstack_tr.Runtime.Engine.{after_precheck, decide_call, run_precheck}
use my_ai_agent_fullstack_tr.Runtime.Invoke.{
  after_decision, after_validation, find_tool, invoke, invoke_valid, with_tool,
}
use my_ai_agent_fullstack_tr.Runtime.Reports.{
  Plain, Reported, after_decision-Reported, create_refund_handler-records, decide_call-records,
  get_order_handler-records, rejected-Reported, simulated_shell_handler-records,
  transfer_handler-records,
}
use my_ai_agent_fullstack_tr.Runtime.Tools.{
  build_tools, create_refund_tool, get_order_tool, refund_precheck, run_shell_tool,
  transfer_precheck, transfer_tool,
}

refund_precheck-fits :
    (order_id : Text) (amount : ℕ) (why : Text) (context : ExecutionContext) (s : Shared)
    → refund_precheck (ArgsModel.create_refund order_id amount why) context s ≢ Verdict.raises
unfolding refund_precheck
refund_precheck-fits order_id amount why context s h = ground (arith, h)

transfer_precheck-fits :
    (from_account to_account : Text) (amount : ℕ) (context : ExecutionContext) (s : Shared)
    → transfer_precheck (ArgsModel.transfer from_account to_account amount) context s
      ≢ Verdict.raises
unfolding transfer_precheck
transfer_precheck-fits from_account to_account amount context s h = ground (arith, h)

build_tools-Plain : (print : ℕ → Text) → Every Plain (build_tools print)
unfolding build_tools get_order_tool create_refund_tool run_shell_tool transfer_tool
build_tools-Plain print =
    Every.tool_and
      (record {
        quiet = record { keeps = get_order_handler-records };
        fits = λ t args context s h e. cc;
      })
      (Every.tool_and
        (record {
          quiet = record { keeps = create_refund_handler-records };
          fits = λ t args context s h.
              let (order_id, amount, why, e) = create_refund_args_shape t args h in
              subst (λ x. refund_precheck x context s ≢ Verdict.raises) (sym e)
                (refund_precheck-fits order_id amount why context s);
        })
        (Every.tool_and
          (record {
            quiet = record { keeps = simulated_shell_handler-records };
            fits = λ t args context s h e. cc;
          })
          (Every.tool_and
            (record {
              quiet = record { keeps = transfer_handler-records };
              fits = λ t args context s h.
                  let (from_account, to_account, amount, e) = transfer_args_shape t args h in
                  subst (λ x. transfer_precheck x context s ≢ Verdict.raises) (sym e)
                    (transfer_precheck-fits from_account to_account amount context s);
            })
            Every.no_tool)))

after_precheck-decides :
    (out : Outside) (rules : List PermissionRule) (tool : ToolDefinition) (args : ArgsModel)
    (context : ExecutionContext) (s : Shared) (v : Verdict)
    → v ≢ Verdict.raises
    → (after_precheck out rules tool args context s v).0 ≢ none
after_precheck-decides out rules tool args context s Verdict.raises h e = absurd (h refl)
after_precheck-decides out rules tool args context s (Verdict.denies c) h e = cc
after_precheck-decides out rules tool args context s Verdict.passes h e = ground (arith, e)

decide_call-decides :
    (out : Outside) (rules : List PermissionRule) (tool : ToolDefinition) (args : ArgsModel)
    (context : ExecutionContext) (s : Shared)
    → run_precheck tool args context s ≢ Verdict.raises
    → (decide_call out rules tool args context s).0 ≢ none
unfolding decide_call
decide_call-decides out rules tool args context s h e = ground (
  arith,
  e,
  after_precheck-decides out rules tool args context s (run_precheck tool args context s) h,
)

decided-Reported :
    (tool : ToolDefinition) (call : ToolCall) (args : ArgsModel) (context : ExecutionContext)
    (s s1 : Shared) (d : Option PermissionDecision)
    → Plain tool
    → d ≢ none
    → s1.records ≡ s.records
    → let (o, s') = after_decision tool call args context d s1 in Reported call context s o s'
decided-Reported tool call args context s s1 none p h e = absurd (h refl)
decided-Reported tool call args context s s1 (some d) p h e =
    after_decision-Reported tool call args context d s s1 p.quiet e

validated-Reported :
    (out : Outside) (rules : List PermissionRule) (tool : ToolDefinition) (call : ToolCall)
    (context : ExecutionContext) (s : Shared) (o : Option ArgsModel)
    → Plain tool
    → model_validate tool.parameters_model call.arguments ≡ o
    → let (r, s') = after_validation out rules tool call context s o in Reported call context s r s'
unfolding invoke_valid
validated-Reported out rules tool call context s none p h =
    rejected-Reported call context Code.invalid_argument s
validated-Reported out rules tool call context s (some args) p h =
    decided-Reported tool call args context s _ _ p
      (decide_call-decides out rules tool args context s (p.fits call.arguments args context s h))
      (decide_call-records out rules tool args context s)

found-Reported :
    (out : Outside) (rules : List PermissionRule) (tools : List ToolDefinition) (call : ToolCall)
    (context : ExecutionContext) (s : Shared) (o : Option ToolDefinition)
    → Every Plain tools
    → find_tool call.tool_name tools ≡ o
    → let (r, s') = with_tool out rules call context s o in Reported call context s r s'
found-Reported out rules tools call context s none all h =
    rejected-Reported call context Code.tool_not_found s
found-Reported out rules tools call context s (some tool) all h =
    validated-Reported out rules tool call context s _
      (find_tool-Every Plain call.tool_name tools tool all h) refl

-- Whatever the call of the four tools, no exception leaves `invoke`: it returns a result, and the audit
-- has its records added at the end: one with the decision, when it is not to allow; else the decision
-- to allow, and then the result's code, as executed when the result is ok and failed when it is not.
pub invoke-Reported :
    (print : ℕ → Text) (out : Outside) (rules : List PermissionRule) (call : ToolCall)
    (context : ExecutionContext) (s : Shared)
    → let (o, s') = invoke out rules (build_tools print) call context s in
      Reported call context s o s'
unfolding invoke
invoke-Reported print out rules call context s =
    found-Reported out rules (build_tools print) call context s _ (build_tools-Plain print) refl
