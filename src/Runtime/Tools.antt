-- ===== src/Runtime/Tools.antt =====
-- The four tools of tool_governance_demo.py: their prechecks, handlers and policies (`build_tools`).
use my_ai_agent_fullstack_tr.Base.{
  Bool, List, [], false, if◌then◌else◌, is_some, leb, list_eq, ltb, nat_eq, none, not, option_eq,
  or_else, pair_eq, some, true, ℕ, ◌&&◌, ◌++◌, ◌+◌, ◌∷◌,
}
use my_ai_agent_fullstack_tr.Domain.Models.{Text}
use my_ai_agent_fullstack_tr.Runtime.{
  ArgsModel, Balance, Code, Effect, ExecutionContext, Outcome, ParametersModel, Performance,
  Permission, Risk, Shared, ToolDefinition, ToolPolicy, Verdict, code_eq, effect_eq, permission_eq,
  risk_eq,
}
use my_ai_agent_fullstack_tr.Storage.Table.{Table, lookup, put}

abbrev pub tenant_a : Text
tenant_a = 116 ∷ 101 ∷ 110 ∷ 97 ∷ 110 ∷ 116 ∷ 95 ∷ 97 ∷ []

abbrev ord_1001 : Text
ord_1001 = 111 ∷ 114 ∷ 100 ∷ 95 ∷ 49 ∷ 48 ∷ 48 ∷ 49 ∷ []

-- An entry of `ORDERS`, without the customer's address.
record Order : Type 0 where
  pub paid : Bool
  pub refundable : ℕ

-- `ORDERS`
unfoldable orders : Table (Text × Text) Order
orders = ((tenant_a, ord_1001), record { paid = true; refundable = 399 }) ∷ []

-- A precheck or a handler that is given another model's arguments fails in its `assert`.
unfoldable pub refund_precheck : ArgsModel → ExecutionContext → Shared → Verdict
unfolding orders
refund_precheck (ArgsModel.create_refund order_id amount why) context s =
    elim (lookup (context.tenant_id, order_id) orders) [
      | none ↦ Verdict.denies Code.business_rule_denied
      | some o ↦
          if not o.paid
          then Verdict.denies Code.business_rule_denied
          else if ltb o.refundable amount
          then Verdict.denies Code.business_rule_denied
          else Verdict.passes
    ]
refund_precheck _ context s = Verdict.raises

-- `balance < amount`
abbrev pub below : ℕ → Balance → Bool
below amount b = ltb b.credits (b.debits + amount)

abbrev pub empty_balance : Balance
empty_balance = record { credits = 0; debits = 0 }

unfoldable pub transfer_precheck : ArgsModel → ExecutionContext → Shared → Verdict
transfer_precheck (ArgsModel.transfer from_account to_account amount) context s =
    if ltb 50000 amount && leb amount 80000
    then Verdict.denies Code.exceed_limit
    else if below amount
        (or_else (lookup (context.tenant_id, from_account) s.accounts) empty_balance)
    then Verdict.denies Code.insufficient_balance
    else Verdict.passes
transfer_precheck _ context s = Verdict.raises

abbrev at_once : Outcome → Shared → Performance
at_once o s = record { waits = 0; outcome = o; effects = s }

unfoldable pub get_order_handler : ArgsModel → ExecutionContext → Shared → Performance
unfolding orders
get_order_handler (ArgsModel.get_order order_id) context s =
    if is_some (lookup (context.tenant_id, order_id) orders)
    then at_once Outcome.returns s
    else at_once (Outcome.denied Code.order_not_found) s
get_order_handler _ context s = at_once Outcome.raises s

unfoldable pub create_refund_handler : ArgsModel → ExecutionContext → Shared → Performance
create_refund_handler (ArgsModel.create_refund order_id amount why) context s =
    at_once Outcome.returns (record s { refund_executions = s.refund_executions + 1 })
create_refund_handler _ context s = at_once Outcome.raises s

unfoldable pub simulated_shell_handler : ArgsModel → ExecutionContext → Shared → Performance
simulated_shell_handler (ArgsModel.run_shell command) context s =
    at_once Outcome.returns (record s { shell_executions = s.shell_executions + 1 })
simulated_shell_handler _ context s = at_once Outcome.raises s

-- The two assignments to `ACCOUNTS`.
unfoldable pub move_money :
    Text × Text → Text × Text → ℕ → Table (Text × Text) Balance → Table (Text × Text) Balance
move_money from_key to_key amount accounts =
    let b = or_else (lookup from_key accounts) empty_balance in
    let debited = put from_key (record b { debits = b.debits + amount }) accounts in
    let c = or_else (lookup to_key debited) empty_balance in
    put to_key (record c { credits = c.credits + amount }) debited

unfoldable pub transfer_handler : ArgsModel → ExecutionContext → Shared → Performance
unfolding move_money
transfer_handler (ArgsModel.transfer from_account to_account amount) context s =
    let from_key : Text × Text = (context.tenant_id, from_account) in
    let to_key : Text × Text = (context.tenant_id, to_account) in
    let known = is_some (lookup to_key s.accounts) in
    record {
      waits = if ltb 80000 amount then 3000 else 0;
      outcome = if known then Outcome.returns else Outcome.denied Code.account_not_found;
      effects =
          if known then record s { accounts = move_money from_key to_key amount s.accounts } else s;
    }
transfer_handler _ context s = at_once Outcome.raises s

-- The names of the tools.
abbrev get_order_name : Text
get_order_name = 103 ∷ 101 ∷ 116 ∷ 95 ∷ 111 ∷ 114 ∷ 100 ∷ 101 ∷ 114 ∷ []

abbrev create_refund_name : Text
create_refund_name = 99 ∷ 114 ∷ 101 ∷ 97 ∷ 116 ∷ 101 ∷ 95 ∷ 114 ∷ 101 ∷ 102 ∷ 117 ∷ 110 ∷ 100 ∷ []

abbrev run_shell_name : Text
run_shell_name = 114 ∷ 117 ∷ 110 ∷ 95 ∷ 115 ∷ 104 ∷ 101 ∷ 108 ∷ 108 ∷ []

abbrev pub transfer_name : Text
transfer_name = 116 ∷ 114 ∷ 97 ∷ 110 ∷ 115 ∷ 102 ∷ 101 ∷ 114 ∷ []

abbrev read_policy : ToolPolicy
read_policy = record {
  effect = Effect.read;
  risk = Risk.medium;
  permission = Permission.order_read;
  requires_approval = false;
  timeout_ms = 1000;
  max_retries = 2;
  idempotent = true;
}

abbrev write_policy : Permission → ToolPolicy
write_policy p = record {
  effect = Effect.write;
  risk = Risk.high;
  permission = p;
  requires_approval = true;
  timeout_ms = 2000;
  max_retries = 0;
  idempotent = false;
}

abbrev shell_policy : ToolPolicy
shell_policy = record {
  effect = Effect.shell;
  risk = Risk.medium;
  permission = Permission.shell_run;
  requires_approval = false;
  timeout_ms = 1000;
  max_retries = 0;
  idempotent = false;
}

-- `f"{number}"` of an amount is `print`.
abbrev target_of : (ℕ → Text) → ArgsModel → Text
target_of print (ArgsModel.get_order order_id) = order_id
target_of print (ArgsModel.create_refund order_id amount why) = order_id ++ 58 ∷ print amount
target_of print (ArgsModel.run_shell command) = command
target_of print (ArgsModel.transfer from_account to_account amount) =
    from_account ++ 58 ∷ to_account ++ 58 ∷ print amount

unfoldable pub get_order_tool : (ℕ → Text) → ToolDefinition
unfolding get_order_handler
get_order_tool print = record {
  name = get_order_name;
  parameters_model = ParametersModel.get_order_args;
  policy = read_policy;
  handler = get_order_handler;
  canonical_target = target_of print;
  precheck = none;
}

unfoldable pub create_refund_tool : (ℕ → Text) → ToolDefinition
unfolding create_refund_handler refund_precheck
create_refund_tool print = record {
  name = create_refund_name;
  parameters_model = ParametersModel.create_refund_args;
  policy = write_policy Permission.refund_create;
  handler = create_refund_handler;
  canonical_target = target_of print;
  precheck = some refund_precheck;
}

unfoldable pub run_shell_tool : (ℕ → Text) → ToolDefinition
unfolding simulated_shell_handler
run_shell_tool print = record {
  name = run_shell_name;
  parameters_model = ParametersModel.run_shell_args;
  policy = shell_policy;
  handler = simulated_shell_handler;
  canonical_target = target_of print;
  precheck = none;
}

unfoldable pub transfer_tool : (ℕ → Text) → ToolDefinition
unfolding transfer_handler transfer_precheck
transfer_tool print = record {
  name = transfer_name;
  parameters_model = ParametersModel.transfer_args;
  policy = write_policy Permission.transfer_execute;
  handler = transfer_handler;
  canonical_target = target_of print;
  precheck = some transfer_precheck;
}

unfoldable pub build_tools : (ℕ → Text) → List ToolDefinition
unfolding get_order_tool create_refund_tool run_shell_tool transfer_tool
build_tools print =
    get_order_tool print
    ∷ create_refund_tool print
    ∷ run_shell_tool print
    ∷ transfer_tool print
    ∷ []
