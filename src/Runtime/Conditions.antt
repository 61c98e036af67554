-- ===== src/Runtime/Conditions.antt =====
-- The conditions that `decide` of tool_governance_demo.py looks at: rules, and approvals.
use my_ai_agent_fullstack_tr.Base.{
  Bool-cases, List, Option, [], arith, false, inl, inr, list_eq, nat_eq, none, option_eq, pair_eq,
  refl, some, true, ◌&&◌, ◌==◌, ◌∷◌, ◌≡◌, ◌≢◌, ◌≤◌, ◌⊎◌,
}
use my_ai_agent_fullstack_tr.Domain.Models.{Text}
use my_ai_agent_fullstack_tr.Runtime.{
  ApprovalRecord, ArgsModel, DecisionAction, Effect, ExecutionContext, Outside, PermissionMode,
  PermissionRule, ToolDefinition, decision_action_eq, effect_eq, permission_mode_eq,
}
use my_ai_agent_fullstack_tr.Runtime.Approvals.{is_valid}
use my_ai_agent_fullstack_tr.Runtime.Engine.{any_rule, command_of, is_dangerous_shell, rule_matches}

-- One of the rules has the effect and matches the call.
pub data SomeRule (a : DecisionAction) (tool : ToolDefinition) (args : ArgsModel)
    : List PermissionRule → Type 0 where
  here :
      {r : PermissionRule} {rules : List PermissionRule}
      → r.rule_action ≡ a
      → rule_matches r tool args ≡ true
      → SomeRule a tool args (r ∷ rules)
  there :
      {r : PermissionRule} {rules : List PermissionRule}
      → SomeRule a tool args rules
      → SomeRule a tool args (r ∷ rules)

pub any_rule-SomeRule :
    (a : DecisionAction) (tool : ToolDefinition) (args : ArgsModel) (rules : List PermissionRule)
    → any_rule a rules tool args ≡ true
    → SomeRule a tool args rules
unfolding any_rule
any_rule-SomeRule a tool args [] h = cc
any_rule-SomeRule a tool args (r ∷ rules) h =
    elim (Bool-cases (r.rule_action == a && rule_matches r tool args)) [
      | inl e ↦ here (ground (arith, e)) (ground (arith, e))
      | inr e ↦ there (any_rule-SomeRule a tool args rules (ground (arith, h, e)))
    ]

pub SomeRule-any_rule :
    (a : DecisionAction) (tool : ToolDefinition) (args : ArgsModel) (rules : List PermissionRule)
    → SomeRule a tool args rules
    → any_rule a rules tool args ≡ true
unfolding any_rule
SomeRule-any_rule a tool args [] g = elim g [ ]
SomeRule-any_rule a tool args (r ∷ rules) (here e m) = ground (arith, e, m)
SomeRule-any_rule a tool args (r ∷ rules) (there g) =
    ground (arith, SomeRule-any_rule a tool args rules g)

-- The approval that the context names is there, unused and in time, and is for this user, tenant,
-- tool and digest of the arguments.
pub record Usable (out : Outside) (context : ExecutionContext) (name : Text) (args : ArgsModel)
    (r : ApprovalRecord) : Type 0 where
  pub unused : r.used ≡ false
  pub in_time : out.time_ms ≤ r.expires_at
  pub same_user : r.user_id ≡ context.user_id
  pub same_tenant : r.tenant_id ≡ context.tenant_id
  pub same_tool : r.tool_name ≡ name
  pub same_arguments : r.digest ≡ out.approval_digest name args

pub is_valid-Usable :
    (out : Outside) (context : ExecutionContext) (name : Text) (args : ArgsModel)
    (o : Option ApprovalRecord)
    → is_valid out context name args o ≡ true
    → (r : ApprovalRecord) × (o ≡ some r) × Usable out context name args r
is_valid-Usable out context name args none h = cc
is_valid-Usable out context name args (some r) h = (
  r,
  refl,
  record {
    unused = ground (arith, h);
    in_time = ground (arith, h);
    same_user = ground (arith, h);
    same_tenant = ground (arith, h);
    same_tool = ground (arith, h);
    same_arguments = ground (arith, h);
  },
)

pub Usable-is_valid :
    (out : Outside) (context : ExecutionContext) (name : Text) (args : ArgsModel)
    (r : ApprovalRecord)
    → Usable out context name args r
    → is_valid out context name args (some r) ≡ true
Usable-is_valid out context name args r u =
    ground (arith, u.unused, u.in_time, u.same_user, u.same_tenant, u.same_tool, u.same_arguments)

-- What lets a call pass that needs no approval.
pub record Harmless (out : Outside) (rules : List PermissionRule) (tool : ToolDefinition)
    (args : ArgsModel) (context : ExecutionContext) : Type 0 where
  pub reason :
      (context.mode ≡ PermissionMode.bypass_permissions)
      ⊎ SomeRule DecisionAction.allow tool args rules
      ⊎ (tool.policy.effect ≢ Effect.shell)
      ⊎ (is_dangerous_shell out (command_of args) ≡ false)
