-- ===== src/Runtime/Engine.antt =====
-- `class PermissionEngine` of tool_governance_demo.py: allow, deny or confirm, in a fixed order.
use my_ai_agent_fullstack_tr.Base.{
  Bool, List, Option, [], contains, false, if◌then◌else◌, list_eq, nat_eq, none, not, option_eq,
  pair_eq, some, true, ◌&&◌, ◌/=◌, ◌==◌, ◌||◌, ◌∷◌,
}
use my_ai_agent_fullstack_tr.Domain.Models.{Text}
use my_ai_agent_fullstack_tr.Runtime.{
  ArgsModel, Code, DecisionAction, DecisionSource, Effect, ExecutionContext, Outside,
  PermissionDecision, PermissionMode, PermissionRule, Risk, Shared, ShellPattern, ToolDefinition,
  Verdict, code_eq, decision_action_eq, effect_eq, permission_eq, permission_mode_eq, risk_eq,
}
use my_ai_agent_fullstack_tr.Runtime.Approvals.{consume_approval}

-- `str.startswith`
unfoldable starts_with : Text → Text → Bool
starts_with t [] = true
starts_with [] (c ∷ p) = false
starts_with (d ∷ t) (c ∷ p) = d == c && starts_with t p

abbrev pub has_prefix : Text → Option Text → Bool
unfolding starts_with
has_prefix t none = true
has_prefix t (some p) = starts_with t p

unfoldable pub rule_matches : PermissionRule → ToolDefinition → ArgsModel → Bool
rule_matches r tool args =
    r.rule_tool == tool.name && has_prefix (tool.canonical_target args) r.target_prefix

-- The two `any(...)` of `decide`.
unfoldable pub any_rule : DecisionAction → List PermissionRule → ToolDefinition → ArgsModel → Bool
any_rule a [] tool args = false
any_rule a (r ∷ rules) tool args =
    (r.rule_action == a && rule_matches r tool args) || any_rule a rules tool args

unfoldable pub is_dangerous_shell : Outside → Text → Bool
is_dangerous_shell out command =
    out.search ShellPattern.rm_rf command
    || out.search ShellPattern.git_push_force command
    || out.search ShellPattern.git_reset_hard command
    || out.search ShellPattern.sudo command
    || out.search ShellPattern.mkfs command
    || out.search ShellPattern.write_dev command

-- `getattr(arguments, "command", "")`
abbrev pub command_of : ArgsModel → Text
command_of (ArgsModel.run_shell command) = command
command_of _ = []

abbrev pub run_precheck : ToolDefinition → ArgsModel → ExecutionContext → Shared → Verdict
run_precheck tool args context s = elim tool.precheck [
  | none ↦ Verdict.passes
  | some check ↦ check args context s
]

abbrev decision : DecisionAction → Code → DecisionSource → PermissionDecision
decision a c s = record { action = a; code = c; source = s }

abbrev pub needs_approval : ToolDefinition → Bool
needs_approval tool = tool.policy.requires_approval || tool.policy.risk == Risk.high

-- Steps 7 to 9: the mode `bypass`, the allow rules, and dangerous commands.
unfoldable pub judge :
    Outside
    → List PermissionRule
    → ToolDefinition
    → ArgsModel
    → ExecutionContext
    → PermissionDecision
judge out rules tool args context =
    if context.mode == PermissionMode.bypass_permissions
    then decision DecisionAction.allow Code.bypass_allowed DecisionSource.mode
    else if any_rule DecisionAction.allow rules tool args
    then decision DecisionAction.allow Code.allow_rule DecisionSource.rule
    else if tool.policy.effect == Effect.shell && is_dangerous_shell out (command_of args)
    then if context.mode == PermissionMode.dont_ask
      then decision DecisionAction.deny Code.dangerous_operation DecisionSource.risk
      else decision DecisionAction.confirm Code.dangerous_operation DecisionSource.risk
    else decision DecisionAction.allow Code.default_allowed DecisionSource.default

-- Step 6: an approval is consumed, or asked for.
unfoldable pub seek_approval :
    Outside → ToolDefinition → ArgsModel → ExecutionContext → Shared → PermissionDecision × Shared
seek_approval out tool args context s =
    let (valid, s') = consume_approval out context tool.name args s in
    if valid
    then (decision DecisionAction.allow Code.approved DecisionSource.approval, s')
    else if context.mode == PermissionMode.dont_ask
    then (decision DecisionAction.deny Code.approval_required DecisionSource.approval, s')
    else (decision DecisionAction.confirm Code.approval_required DecisionSource.approval, s')

-- What follows the precheck; `none` is an exception that `decide` does not catch.
abbrev pub after_precheck :
    Outside
    → List PermissionRule
    → ToolDefinition
    → ArgsModel
    → ExecutionContext
    → Shared
    → Verdict
    → Option PermissionDecision × Shared
after_precheck out rules tool args context s Verdict.raises = (none, s)
after_precheck out rules tool args context s (Verdict.denies c) =
    (some (decision DecisionAction.deny c DecisionSource.business), s)
after_precheck out rules tool args context s Verdict.passes =
    if needs_approval tool
    then (let (d, s') = seek_approval out tool args context s in (some d, s'))
    else (some (judge out rules tool args context), s)

-- `PermissionEngine.decide`
unfoldable pub decide_call :
    Outside
    → List PermissionRule
    → ToolDefinition
    → ArgsModel
    → ExecutionContext
    → Shared
    → Option PermissionDecision × Shared
unfolding judge seek_approval
decide_call out rules tool args context s =
    if any_rule DecisionAction.deny rules tool args
    then (some (decision DecisionAction.deny Code.deny_rule DecisionSource.rule), s)
    else if context.mode == PermissionMode.plan && tool.policy.effect /= Effect.read
    then (some (decision DecisionAction.deny Code.plan_mode_denied DecisionSource.mode), s)
    else if not (contains tool.name context.allowed_tools)
    then (some (decision DecisionAction.deny Code.tool_not_allowed DecisionSource.whitelist), s)
    else if not (contains tool.policy.permission context.permissions)
    then (some (decision DecisionAction.deny Code.permission_denied DecisionSource.rbac), s)
    else after_precheck out rules tool args context s (run_precheck tool args context s)
