-- ===== src/Runtime/Authorized.antt =====
-- Which calls `decide` of tool_governance_demo.py allows.
use my_ai_agent_fullstack_tr.Base.{
  Bool, Bool-cases, List, Option, [], ap, arith, contains, false, inl, inr, list_eq, nat_eq, none,
  option_eq, or_else, pair_eq, refl, some, sym, true, ◌==◌, ◌↔◌, ◌∙◌, ◌≡◌, ◌⊎◌,
}
use my_ai_agent_fullstack_tr.Runtime.{
  ApprovalRecord, ArgsModel, DecisionAction, DecisionAction-discrete, Effect, ExecutionContext,
  Outside, PermissionDecision, PermissionMode, PermissionRule, Shared, ToolCall, ToolDefinition,
  ToolResult, Verdict, decision_action_eq, effect_eq, permission_eq, permission_mode_eq,
}
use my_ai_agent_fullstack_tr.Runtime.Approvals.{consume_approval, is_valid}
use my_ai_agent_fullstack_tr.Runtime.Args.{model_validate}
use my_ai_agent_fullstack_tr.Runtime.Conditions.{
  Harmless, SomeRule, SomeRule-any_rule, Usable, Usable-is_valid, any_rule-SomeRule,
  is_valid-Usable,
}
use my_ai_agent_fullstack_tr.Runtime.Course.{Course, Executed, Unexecuted, invoke-Course}
use my_ai_agent_fullstack_tr.Runtime.Engine.{
  after_precheck, any_rule, decide_call, judge, needs_approval, run_precheck, seek_approval,
}
use my_ai_agent_fullstack_tr.Runtime.Invoke.{find_tool, invoke}
use my_ai_agent_fullstack_tr.Storage.Table.{lookup}

-- The permission of a call, without the order in which `decide` looks at its parts.
pub record Authorized (out : Outside) (rules : List PermissionRule) (tool : ToolDefinition)
    (args : ArgsModel) (context : ExecutionContext) (s : Shared) : Type 0 where
  pub undenied : ¬ SomeRule DecisionAction.deny tool args rules
  pub planned : context.mode ≡ PermissionMode.plan → tool.policy.effect ≡ Effect.read
  pub listed : contains tool.name context.allowed_tools ≡ true
  pub permitted : contains tool.policy.permission context.permissions ≡ true
  pub checked : run_precheck tool args context s ≡ Verdict.passes
  pub approved :
      needs_approval tool ≡ true
      → (r : ApprovalRecord) × (lookup (or_else context.approval_id []) s.approvals ≡ some r)
        × Usable out context tool.name args r
  pub harmless : needs_approval tool ≡ false → Harmless out rules tool args context

unfoldable pub allows : Option PermissionDecision → Bool
allows none = false
allows (some d) = d.action == DecisionAction.allow

judge-Harmless :
    (out : Outside) (rules : List PermissionRule) (tool : ToolDefinition) (args : ArgsModel)
    (context : ExecutionContext)
    → allows (some (judge out rules tool args context)) ≡ true
    → Harmless out rules tool args context
unfolding judge allows DecisionAction-discrete
judge-Harmless out rules tool args context h =
    elim (Bool-cases (context.mode == PermissionMode.bypass_permissions)) [
      | inl e ↦ record { reason = inl (ground (arith, e)) }
      | inr e ↦ elim (Bool-cases (any_rule DecisionAction.allow rules tool args)) [
        | inl m ↦ record { reason = inr (inl (any_rule-SomeRule _ tool args rules m)) }
        | inr m ↦ elim (Bool-cases (tool.policy.effect == Effect.shell)) [
          | inl k ↦ record { reason = inr (inr (inr (ground (arith, h, e, m, k)))) }
          | inr k ↦ record { reason = inr (inr (inl (ground (arith, k)))) }
        ]
      ]
    ]

Harmless-judge :
    (out : Outside) (rules : List PermissionRule) (tool : ToolDefinition) (args : ArgsModel)
    (context : ExecutionContext)
    → Harmless out rules tool args context
    → allows (some (judge out rules tool args context)) ≡ true
unfolding judge allows DecisionAction-discrete
Harmless-judge out rules tool args context h = elim h.reason [
  | inl e ↦ ground (arith, e)
  | inr (inl g) ↦ ground (arith, SomeRule-any_rule DecisionAction.allow tool args rules g)
  | inr (inr (inl k)) ↦ ground (arith, k)
  | inr (inr (inr d)) ↦ ground (arith, d)
]

-- The call of `decide` after its precheck.
after_precheck-allows :
    (out : Outside) (rules : List PermissionRule) (tool : ToolDefinition) (args : ArgsModel)
    (context : ExecutionContext) (s : Shared) (v : Verdict)
    → allows (after_precheck out rules tool args context s v).0 ≡ true
    → (v ≡ Verdict.passes)
      × (needs_approval tool ≡ true
          → is_valid out context tool.name args
              (lookup (or_else context.approval_id []) s.approvals)
            ≡ true)
      × (needs_approval tool ≡ false → allows (some (judge out rules tool args context)) ≡ true)
unfolding allows seek_approval consume_approval DecisionAction-discrete
after_precheck-allows out rules tool args context s Verdict.raises h = cc
after_precheck-allows out rules tool args context s (Verdict.denies c) h = cc
after_precheck-allows out rules tool args context s Verdict.passes h =
    (refl, λ e. ground (arith, h, e), λ e. ground (arith, h, e))

allows-after_precheck :
    (out : Outside) (rules : List PermissionRule) (tool : ToolDefinition) (args : ArgsModel)
    (context : ExecutionContext) (s : Shared)
    → (needs_approval tool ≡ true
        → is_valid out context tool.name args (lookup (or_else context.approval_id []) s.approvals)
          ≡ true)
    → (needs_approval tool ≡ false → allows (some (judge out rules tool args context)) ≡ true)
    → allows (after_precheck out rules tool args context s Verdict.passes).0 ≡ true
unfolding allows seek_approval consume_approval DecisionAction-discrete
allows-after_precheck out rules tool args context s f g = elim (Bool-cases (needs_approval tool)) [
  | inl e ↦ ground (arith, e, f e)
  | inr e ↦ ground (arith, e, g e)
]

-- What `decide` checks before its precheck.
decide_call-allows :
    (out : Outside) (rules : List PermissionRule) (tool : ToolDefinition) (args : ArgsModel)
    (context : ExecutionContext) (s : Shared)
    → allows (decide_call out rules tool args context s).0 ≡ true
    → (any_rule DecisionAction.deny rules tool args ≡ false)
      × (context.mode ≡ PermissionMode.plan → tool.policy.effect ≡ Effect.read)
      × (contains tool.name context.allowed_tools ≡ true)
      × (contains tool.policy.permission context.permissions ≡ true)
      × (decide_call out rules tool args context s
          ≡ after_precheck out rules tool args context s (run_precheck tool args context s))
unfolding decide_call allows DecisionAction-discrete
decide_call-allows out rules tool args context s h = (
  ground (arith, h),
  λ e. ground (arith, h, e),
  ground (arith, h),
  ground (arith, h),
  ground (arith, h),
)

Authorized-allows :
    (out : Outside) (rules : List PermissionRule) (tool : ToolDefinition) (args : ArgsModel)
    (context : ExecutionContext) (s : Shared)
    → Authorized out rules tool args context s
    → allows (decide_call out rules tool args context s).0 ≡ true
unfolding decide_call
Authorized-allows out rules tool args context s u =
    let passed =
      allows-after_precheck out rules tool args context s
        (λ n.
          let (r, found, usable) = u.approved n in
          ap (is_valid out context tool.name args) found
          ∙ Usable-is_valid out context tool.name args r usable)
        (λ n. Harmless-judge out rules tool args context (u.harmless n)) in
    elim (Bool-cases (any_rule DecisionAction.deny rules tool args)) [
      | inl e ↦ absurd (u.undenied (any_rule-SomeRule _ tool args rules e))
      | inr e ↦ ground (arith, e, u.planned, u.listed, u.permitted, u.checked, passed)
    ]

-- The engine allows a call exactly when: no deny rule matches it; in the plan mode it only reads; the
-- tool is on the list and its permission held; the precheck passes; an approval that fits it is there
-- and unused, if its tool needs one; and else it is in the mode that bypasses, an allow rule matches
-- it, or it is no dangerous command.
pub decide_call_iff :
    (out : Outside) (rules : List PermissionRule) (tool : ToolDefinition) (args : ArgsModel)
    (context : ExecutionContext) (s : Shared)
    → (allows (decide_call out rules tool args context s).0 ≡ true)
      ↔ Authorized out rules tool args context s
decide_call_iff out rules tool args context s = (
  λ h.
      let (d, p, l, k, e) = decide_call-allows out rules tool args context s h in
      let (c, a, j) =
        after_precheck-allows out rules tool args context s (run_precheck tool args context s)
          (sym (ap (λ x. allows x.0) e) ∙ h) in
      record {
        undenied = λ g. ground (arith, d, SomeRule-any_rule DecisionAction.deny tool args rules g);
        planned = p;
        listed = l;
        permitted = k;
        checked = c;
        approved = λ n. is_valid-Usable out context tool.name args _ (a n);
        harmless = λ n. judge-Harmless out rules tool args context (j n);
      },
  λ u. Authorized-allows out rules tool args context s u,
)

-- A call whose handler has run was authorized.
pub Executed-Authorized :
    (out : Outside) (rules : List PermissionRule) (tools : List ToolDefinition) (call : ToolCall)
    (context : ExecutionContext) (s s' : Shared) (o : Option ToolResult)
    (x : Executed out rules tools call context s s' o)
    → Authorized out rules x.tool x.args context s
unfolding allows
Executed-Authorized out rules tools call context s s' o x =
    (decide_call_iff out rules x.tool x.args context s).0
      (ap allows x.decided ∙ ground (arith, x.allowed))

-- A call that changes an account or counts a refund or a command, or whose result is ok, is one of a
-- tool with arguments that are valid, and it was authorized.
pub invoke-Authorized :
    (out : Outside) (rules : List PermissionRule) (tools : List ToolDefinition) (call : ToolCall)
    (context : ExecutionContext) (s : Shared)
    → let (o, s') = invoke out rules tools call context s in
      ((tool : ToolDefinition) × (args : ArgsModel) × (find_tool call.tool_name tools ≡ some tool)
        × (model_validate tool.parameters_model call.arguments ≡ some args)
        × Authorized out rules tool args context s)
      ⊎ Unexecuted s s' o
unfolding Course
invoke-Authorized out rules tools call context s =
    elim (invoke-Course out rules tools call context s) [
      | inl x ↦ inl (
        x.tool,
        x.args,
        x.found,
        x.valid,
        Executed-Authorized out rules tools call context s _ _ x,
      )
      | inr u ↦ inr u
    ]
