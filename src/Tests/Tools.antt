-- ===== src/Tests/Tools.antt =====
-- The theorems on the tool runtime, applied: an approved transfer, and a flaky reader.
use my_ai_agent_fullstack_tr.Base.{
  List, List-discrete, Option-discrete, Pair-discrete, [], false, if◌then◌else◌, length, list_eq,
  ltb, nat_eq, option_eq, pair_eq, refl, some, true, ℕ, ℕ_discrete, ◌+◌, ◌<◌, ◌↔◌, ◌∷◌, ◌≡◌, ◌≤◌,
  ◌⊎◌,
}
use my_ai_agent_fullstack_tr.Domain.Models.{Text}
use my_ai_agent_fullstack_tr.Runtime.{
  ApprovalRecord, ArgsModel, Code, DecisionAction, DecisionAction-discrete, DecisionSource-discrete,
  Effect-discrete, ExecutionContext, Outcome, Outside, Performance, Permission, Permission-discrete,
  PermissionMode, PermissionMode-discrete, Risk-discrete, Shared, ToolCall, ToolDefinition, Value,
  code_eq, decision_action_eq, permission_eq, permission_mode_eq,
}
use my_ai_agent_fullstack_tr.Runtime.Answers.{invoke-Reported}
use my_ai_agent_fullstack_tr.Runtime.Approvals.{consume_approval}
use my_ai_agent_fullstack_tr.Runtime.Args.{
  all_digits, amount_field, field_names, from_account_field, model_validate, only_fields,
  to_account_field, validate_fields,
}
use my_ai_agent_fullstack_tr.Runtime.Attempts.{
  AllShort, Recovers, execute_with_recovery-Recovers, execute_with_recovery_bounds, retries,
}
use my_ai_agent_fullstack_tr.Runtime.Authorized.{
  Authorized, allows, decide_call_iff, invoke-Authorized,
}
use my_ai_agent_fullstack_tr.Runtime.Course.{Unexecuted}
use my_ai_agent_fullstack_tr.Runtime.Engine.{any_rule, decide_call, judge, seek_approval}
use my_ai_agent_fullstack_tr.Runtime.Grants.{Operation, granted, used_up, used_up_bound}
use my_ai_agent_fullstack_tr.Runtime.Invoke.{
  Ending, attempt_loop, execute_call, execute_with_recovery, find_tool, invoke, invoke_valid,
  is_repeatable,
}
use my_ai_agent_fullstack_tr.Runtime.Moved.{Moved, transfer-Moved}
use my_ai_agent_fullstack_tr.Runtime.OneUse.{live}
use my_ai_agent_fullstack_tr.Runtime.Reports.{Reported}
use my_ai_agent_fullstack_tr.Runtime.Tools.{
  build_tools, create_refund_tool, get_order_tool, move_money, run_shell_tool, tenant_a,
  transfer_handler, transfer_name, transfer_precheck, transfer_tool,
}
use my_ai_agent_fullstack_tr.Runtime.Transfers.{Request, Sound, serve, serve-Sound}
use my_ai_agent_fullstack_tr.Storage.Table.{lookup, put}

abbrev account_a : Text
account_a = 65 ∷ 67 ∷ 67 ∷ 45 ∷ 65 ∷ 45 ∷ 49 ∷ 50 ∷ 51 ∷ 52 ∷ 53 ∷ 54 ∷ []

abbrev account_b : Text
account_b = 65 ∷ 67 ∷ 67 ∷ 45 ∷ 65 ∷ 45 ∷ 54 ∷ 53 ∷ 52 ∷ 51 ∷ 50 ∷ 49 ∷ []

abbrev print_amount : ℕ → Text
print_amount n = n ∷ []

abbrev outside_at : ℕ → Outside
outside_at now = record {
  time_ms = now;
  approval_digest = λ name args. length name;
  search = λ pattern command. false;
}

abbrev payer : ExecutionContext
payer = record {
  trace_id = 1 ∷ [];
  user_id = 2 ∷ [];
  tenant_id = tenant_a;
  mode = PermissionMode.default;
  permissions = Permission.transfer_execute ∷ [];
  allowed_tools = transfer_name ∷ [];
  approval_id = some (7 ∷ []);
}

abbrev pay : ToolCall
pay = record {
  tool_call_id = 3 ∷ [];
  tool_name = transfer_name;
  arguments =
      (from_account_field, Value.text account_a)
      ∷ (to_account_field, Value.text account_b)
      ∷ (amount_field, Value.number 300)
      ∷ [];
}

abbrev pay_args : ArgsModel
pay_args = ArgsModel.transfer account_a account_b 300

abbrev pay_grant : ApprovalRecord
pay_grant = record {
  user_id = 2 ∷ [];
  tenant_id = tenant_a;
  tool_name = transfer_name;
  digest = 8;
  expires_at = 900;
  used = false;
}

abbrev bank : Shared
bank = record {
  approvals = (7 ∷ [], pay_grant) ∷ [];
  records = [];
  accounts =
      ((tenant_a, account_a), record { credits = 1000; debits = 0 })
      ∷ ((tenant_a, account_b), record { credits = 50; debits = 0 })
      ∷ [];
  refund_executions = 0;
  shell_executions = 0;
}

-- Unfolds what a call runs through.
unfoldable call_steps : Shared → Shared
unfolding invoke find_tool build_tools transfer_tool get_order_tool create_refund_tool
    run_shell_tool model_validate validate_fields only_fields field_names all_digits invoke_valid
    decide_call any_rule seek_approval consume_approval judge execute_call execute_with_recovery
    attempt_loop transfer_precheck transfer_handler move_money lookup put ℕ_discrete List-discrete
    Option-discrete Pair-discrete Effect-discrete Risk-discrete Permission-discrete
    PermissionMode-discrete DecisionAction-discrete DecisionSource-discrete
call_steps s = s

-- The transfer passes, once.
pay_once :
    (invoke (outside_at 100) [] (build_tools print_amount) pay payer bank).0
    ≡ some (record {
      result_ok = true;
      result_action = DecisionAction.allow;
      result_code = Code.success;
    })
unfolding call_steps
pay_once = refl

pay_twice :
    let s = (invoke (outside_at 100) [] (build_tools print_amount) pay payer bank).1 in
    (invoke (outside_at 200) [] (build_tools print_amount) pay payer s).0
    ≡ some (record {
      result_ok = false;
      result_action = DecisionAction.confirm;
      result_code = Code.approval_required;
    })
unfolding call_steps
pay_twice = refl

decide_call_iff_example :
    (allows (decide_call (outside_at 100) [] (transfer_tool print_amount) pay_args payer bank).0
      ≡ true)
    ↔ Authorized (outside_at 100) [] (transfer_tool print_amount) pay_args payer bank
decide_call_iff_example =
    decide_call_iff (outside_at 100) [] (transfer_tool print_amount) pay_args payer bank

invoke-Authorized_example :
    let (o, s') = invoke (outside_at 100) [] (build_tools print_amount) pay payer bank in
    ((tool : ToolDefinition) × (args : ArgsModel) × (find_tool pay.tool_name
          (build_tools print_amount)
        ≡ some tool)
      × (model_validate tool.parameters_model pay.arguments ≡ some args)
      × Authorized (outside_at 100) [] tool args payer bank)
    ⊎ Unexecuted bank s' o
invoke-Authorized_example =
    invoke-Authorized (outside_at 100) [] (build_tools print_amount) pay payer bank

abbrev one_request : List Request
one_request = record { outside = outside_at 100; rules = []; call = pay; context = payer } ∷ []

serve-Sound_example :
    Sound bank.accounts (serve (build_tools print_amount) one_request bank).accounts
serve-Sound_example = serve-Sound print_amount one_request bank

abbrev pay_again : List Operation
pay_again =
    Operation.request (record { outside = outside_at 100; rules = []; call = pay; context = payer })
    ∷ Operation.request
        (record { outside = outside_at 200; rules = []; call = pay; context = payer })
    ∷ []

used_up_bound_example :
    used_up (7 ∷ []) (build_tools print_amount) pay_again bank
    ≤ granted (7 ∷ []) pay_again + live (7 ∷ []) bank
used_up_bound_example = used_up_bound print_amount (7 ∷ []) pay_again bank

invoke-Reported_example :
    let (o, s') = invoke (outside_at 100) [] (build_tools print_amount) pay payer bank in
    Reported pay payer bank o s'
invoke-Reported_example = invoke-Reported print_amount (outside_at 100) [] pay payer bank

transfer-Moved_example :
    Moved pay payer bank (invoke (outside_at 100) [] (build_tools print_amount) pay payer bank).1
unfolding call_steps
transfer-Moved_example =
    transfer-Moved print_amount (outside_at 100) [] pay payer bank _
      (record {
        result_ok = true;
        result_action = DecisionAction.allow;
        result_code = Code.success;
      })
      refl refl refl

-- A reader that fails until it was called twice.
abbrev flaky_handler : ArgsModel → ExecutionContext → Shared → Performance
flaky_handler args context s = record {
  waits = 0;
  outcome = if ltb s.shell_executions 2 then Outcome.transient else Outcome.returns;
  effects = record s { shell_executions = s.shell_executions + 1 };
}

abbrev flaky : ToolDefinition
unfolding get_order_tool
flaky = record (get_order_tool print_amount) { handler = flaky_handler }

abbrev after_calls : ℕ → Shared
after_calls n = record bank { shell_executions = n }

execute_with_recovery_bounds_example :
    let r = execute_with_recovery flaky pay_args payer bank in
    (1 ≤ r.attempts)
    × (r.attempts ≤ 3)
    × (length r.pauses_ms + 1 ≡ r.attempts)
    × AllShort r.pauses_ms
    × (is_repeatable flaky ≡ false → (r.attempts ≡ 1) × (r.pauses_ms ≡ []))
unfolding get_order_tool
execute_with_recovery_bounds_example = execute_with_recovery_bounds flaky pay_args payer bank

flaky-Recovers : Recovers flaky pay_args payer 2 bank (after_calls 3)
unfolding flaky
flaky-Recovers = Recovers.again refl refl (Recovers.again refl refl (Recovers.now refl refl))

execute_with_recovery-Recovers_example :
    let r = execute_with_recovery flaky pay_args payer bank in
    (2 ≤ retries flaky
      → (r.ending ≡ Ending.returned) × (r.attempts ≡ 3) × (r.after ≡ after_calls 3))
    × (retries flaky < 2 → (r.ending ≡ Ending.exhausted) × (r.attempts ≡ retries flaky + 1))
execute_with_recovery-Recovers_example =
    execute_with_recovery-Recovers flaky pay_args payer 2 bank (after_calls 3) flaky-Recovers
