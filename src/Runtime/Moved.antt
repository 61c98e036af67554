-- ===== src/Runtime/Moved.antt =====
-- What a transfer of tool_governance_demo.py that succeeds has done.
use my_ai_agent_fullstack_tr.Base.{
  Bool-cases, List, List-discrete, ap, arith, false, inl, inr, is_some, list_eq, ltb, nat_eq,
  option_eq, or_else, pair_eq, refl, some, subst, sym, true, ℕ, ℕ_discrete, ◌∙◌, ◌≡◌, ◌≤◌,
}
use my_ai_agent_fullstack_tr.Domain.Models.{Text}
use my_ai_agent_fullstack_tr.Runtime.{
  ArgsModel, Effect-discrete, ExecutionContext, Outside, ParametersModel, PermissionRule, Shared,
  ToolCall, ToolDefinition, ToolResult, Verdict,
}
use my_ai_agent_fullstack_tr.Runtime.Args.{model_validate, transfer_args_shape}
use my_ai_agent_fullstack_tr.Runtime.Authorized.{Executed-Authorized}
use my_ai_agent_fullstack_tr.Runtime.Course.{Course, decide_call-SameEffects, invoke-Course}
use my_ai_agent_fullstack_tr.Runtime.Engine.{run_precheck}
use my_ai_agent_fullstack_tr.Runtime.Invoke.{
  attempt_loop, execute_call, execute_with_recovery, find_tool, invoke,
}
use my_ai_agent_fullstack_tr.Runtime.Tools.{
  below, build_tools, create_refund_tool, empty_balance, get_order_tool, move_money, run_shell_tool,
  transfer_handler, transfer_name, transfer_precheck, transfer_tool,
}
use my_ai_agent_fullstack_tr.Storage.Table.{lookup}

-- The arguments, and what was true of them.
pub record Moved (call : ToolCall) (context : ExecutionContext) (s s' : Shared) : Type 0 where
  pub from_account : Text
  pub to_account : Text
  pub amount : ℕ
  pub valid :
      model_validate ParametersModel.transfer_args call.arguments
      ≡ some (ArgsModel.transfer from_account to_account amount)
  pub small : amount ≤ 50000
  pub covered :
      below amount (or_else (lookup (context.tenant_id, from_account) s.accounts) empty_balance)
      ≡ false
  pub known : is_some (lookup (context.tenant_id, to_account) s.accounts) ≡ true
  pub moved :
      s'.accounts
      ≡ move_money
          (context.tenant_id, from_account)
          (context.tenant_id, to_account)
          amount
          s.accounts

find_tool-transfer :
    (print : ℕ → Text) → find_tool transfer_name (build_tools print) ≡ some (transfer_tool print)
unfolding find_tool build_tools get_order_tool create_refund_tool run_shell_tool ℕ_discrete
    List-discrete transfer_tool
find_tool-transfer print = refl

execute_transfer :
    (print : ℕ → Text) (call : ToolCall) (context : ExecutionContext) (s s1 : Shared)
    (from_account to_account : Text) (amount : ℕ)
    → transfer_precheck (ArgsModel.transfer from_account to_account amount) context s
      ≡ Verdict.passes
    → s1.accounts ≡ s.accounts
    → let (r, s') =
        execute_call
          (transfer_tool print)
          call
          (ArgsModel.transfer from_account to_account amount)
          context
          s1 in
      r.result_ok ≡ true
      → (amount ≤ 50000)
        × (below amount
              (or_else (lookup (context.tenant_id, from_account) s.accounts) empty_balance)
            ≡ false)
        × (is_some (lookup (context.tenant_id, to_account) s.accounts) ≡ true)
        × (s'.accounts
            ≡ move_money
                (context.tenant_id, from_account)
                (context.tenant_id, to_account)
                amount
                s.accounts)
unfolding transfer_precheck transfer_handler transfer_tool execute_call execute_with_recovery
    attempt_loop Effect-discrete
execute_transfer print call context s s1 from_account to_account amount passed same h =
    elim (Bool-cases (is_some (lookup (context.tenant_id, to_account) s1.accounts))) [
      | inl k ↦ elim (Bool-cases (ltb 80000 amount)) [
        | inl big ↦ ground (arith, h, k, big)
        | inr small ↦ (
          ground (arith, passed, small),
          ground (arith, passed),
          ground (arith, k, same),
          ground (arith, k, small, same),
        )
      ]
      | inr k ↦ elim (Bool-cases (ltb 80000 amount)) [
        | inl big ↦ ground (arith, h, k, big)
        | inr small ↦ ground (arith, h, k, small)
      ]
    ]

executed-Moved :
    (print : ℕ → Text) (out : Outside) (rules : List PermissionRule) (call : ToolCall)
    (context : ExecutionContext) (s s1 s' : Shared) (args : ArgsModel)
    → model_validate ParametersModel.transfer_args call.arguments ≡ some args
    → transfer_precheck args context s ≡ Verdict.passes
    → s1.accounts ≡ s.accounts
    → (execute_call (transfer_tool print) call args context s1).0.result_ok ≡ true
    → s' ≡ (execute_call (transfer_tool print) call args context s1).1
    → Moved call context s s'
executed-Moved print out rules call context s s1 s' args v passed same h after =
    let (from_account, to_account, amount, e) = transfer_args_shape call.arguments args v in
    let (small, covered, known, moved) =
      execute_transfer print call context s s1 from_account to_account amount
        (sym (ap (λ x. transfer_precheck x context s) e) ∙ passed) same
        (sym (ap (λ x. (execute_call (transfer_tool print) call x context s1).0.result_ok) e)
          ∙ h) in
    record {
      from_account = from_account;
      to_account = to_account;
      amount = amount;
      valid = v ∙ ap some e;
      small = small;
      covered = covered;
      known = known;
      moved =
          ap (λ b. b.accounts) after
          ∙ ap (λ x. (execute_call (transfer_tool print) call x context s1).1.accounts) e
          ∙ moved;
    }

-- The tool under its name is the one for transfers.
ran-Moved :
    (print : ℕ → Text) (out : Outside) (rules : List PermissionRule) (call : ToolCall)
    (context : ExecutionContext) (s s1 s' : Shared) (args : ArgsModel) (tool : ToolDefinition)
    → transfer_tool print ≡ tool
    → model_validate tool.parameters_model call.arguments ≡ some args
    → run_precheck tool args context s ≡ Verdict.passes
    → s1.accounts ≡ s.accounts
    → (execute_call tool call args context s1).0.result_ok ≡ true
    → s' ≡ (execute_call tool call args context s1).1
    → Moved call context s s'
unfolding transfer_tool
ran-Moved print out rules call context s s1 s' args tool e =
    subst
      (λ t.
        model_validate t.parameters_model call.arguments ≡ some args
        → run_precheck t args context s ≡ Verdict.passes
        → s1.accounts ≡ s.accounts
        → (execute_call t call args context s1).0.result_ok ≡ true
        → s' ≡ (execute_call t call args context s1).1
        → Moved call context s s')
      e (executed-Moved print out rules call context s s1 s' args)

-- A call of `transfer` whose result is ok had valid arguments; its amount was at most 50000, the
-- account it was paid from covered it, and the account it was paid to was one of the tenant. What it
-- has done is to move the amount.
pub transfer-Moved :
    (print : ℕ → Text) (out : Outside) (rules : List PermissionRule) (call : ToolCall)
    (context : ExecutionContext) (s s' : Shared) (r : ToolResult)
    → call.tool_name ≡ transfer_name
    → invoke out rules (build_tools print) call context s ≡ (some r, s')
    → r.result_ok ≡ true
    → Moved call context s s'
unfolding Course
transfer-Moved print out rules call context s s' r named h good =
    elim (subst (Course out rules (build_tools print) call context s) h
      (invoke-Course out rules (build_tools print) call context s)) [
        | inl x ↦
            let kept = decide_call-SameEffects out rules x.tool x.args context s in
            let found : some (transfer_tool print) ≡ some x.tool =
              sym (find_tool-transfer print)
              ∙ ap (λ n. find_tool n (build_tools print)) (sym named)
              ∙ x.found in
            ran-Moved print out rules call context s x.before s' x.args x.tool
              (ground (arith, found)) x.valid
              (Executed-Authorized out rules _ call context s s' _ x).checked
              (ap (λ b. b.accounts) x.before_eq ∙ kept.same_accounts)
              (ground (arith, x.result_eq, good)) x.after_eq
        | inr u ↦ absurd (ground (arith, good, u.not_ok r refl))
      ]
