-- ===== src/Runtime/Course.antt =====
-- The course of a call in `ToolRuntime.invoke` of tool_governance_demo.py: the decision, and the
-- handler behind it.
use my_ai_agent_fullstack_tr.Base.{
  Bool-cases, List, Option, [], ap, arith, false, inl, inr, list_eq, nat_eq, none, option_eq,
  pair_eq, refl, some, subst, sym, ◌/=◌, ◌==◌, ◌∷◌, ◌≡◌, ◌⊎◌,
}
use my_ai_agent_fullstack_tr.Domain.Models.{Text}
use my_ai_agent_fullstack_tr.Runtime.{
  ArgsModel, AuditPhase, Code, DecisionAction, ExecutionContext, Outside, PermissionDecision,
  PermissionRule, Shared, ToolCall, ToolDefinition, ToolResult, Verdict, code_eq,
  decision_action_eq,
}
use my_ai_agent_fullstack_tr.Runtime.Approvals.{consume_approval}
use my_ai_agent_fullstack_tr.Runtime.Args.{model_validate}
use my_ai_agent_fullstack_tr.Runtime.Engine.{
  after_precheck, decide_call, run_precheck, seek_approval,
}
use my_ai_agent_fullstack_tr.Runtime.Invoke.{
  after_decision, after_validation, append_record, execute_call, find_tool, invoke, invoke_valid,
  rejected, with_tool,
}

-- What neither a decision nor an audit record changes.
pub record SameEffects (s s' : Shared) : Type 0 where
  pub same_accounts : s'.accounts ≡ s.accounts
  pub same_refunds : s'.refund_executions ≡ s.refund_executions
  pub same_shells : s'.shell_executions ≡ s.shell_executions

SameEffects-refl : (s : Shared) → SameEffects s s
SameEffects-refl s = record { same_accounts = refl; same_refunds = refl; same_shells = refl }

consume_approval-SameEffects :
    (out : Outside) (context : ExecutionContext) (name : Text) (args : ArgsModel) (s : Shared)
    → SameEffects s (consume_approval out context name args s).1
unfolding consume_approval
consume_approval-SameEffects out context name args s = record {
  same_accounts = ground (arith);
  same_refunds = ground (arith);
  same_shells = ground (arith);
}

after_precheck-SameEffects :
    (out : Outside) (rules : List PermissionRule) (tool : ToolDefinition) (args : ArgsModel)
    (context : ExecutionContext) (s : Shared) (v : Verdict)
    → SameEffects s (after_precheck out rules tool args context s v).1
unfolding seek_approval
after_precheck-SameEffects out rules tool args context s Verdict.raises = SameEffects-refl s
after_precheck-SameEffects out rules tool args context s (Verdict.denies c) = SameEffects-refl s
after_precheck-SameEffects out rules tool args context s Verdict.passes =
    let kept = consume_approval-SameEffects out context tool.name args s in
    record {
      same_accounts = ground (arith, kept.same_accounts);
      same_refunds = ground (arith, kept.same_refunds);
      same_shells = ground (arith, kept.same_shells);
    }

pub decide_call-SameEffects :
    (out : Outside) (rules : List PermissionRule) (tool : ToolDefinition) (args : ArgsModel)
    (context : ExecutionContext) (s : Shared)
    → SameEffects s (decide_call out rules tool args context s).1
unfolding decide_call
decide_call-SameEffects out rules tool args context s =
    let kept =
      after_precheck-SameEffects out rules tool args context s (run_precheck tool args context s) in
    record {
      same_accounts = ground (arith, kept.same_accounts);
      same_refunds = ground (arith, kept.same_refunds);
      same_shells = ground (arith, kept.same_shells);
    }

-- The decision on a call, if it comes to one.
abbrev pub valid_decision :
    Outside
    → List PermissionRule
    → ToolDefinition
    → ExecutionContext
    → Shared
    → Option ArgsModel
    → Option PermissionDecision
valid_decision out rules tool context s none = none
valid_decision out rules tool context s (some args) = (decide_call out rules tool args context s).0

abbrev pub tool_decision :
    Outside
    → List PermissionRule
    → ToolCall
    → ExecutionContext
    → Shared
    → Option ToolDefinition
    → Option PermissionDecision
tool_decision out rules call context s none = none
tool_decision out rules call context s (some tool) =
    valid_decision out rules tool context s (model_validate tool.parameters_model call.arguments)

unfoldable pub decision_on :
    Outside
    → List PermissionRule
    → List ToolDefinition
    → ToolCall
    → ExecutionContext
    → Shared
    → Option PermissionDecision
decision_on out rules tools call context s =
    tool_decision out rules call context s (find_tool call.tool_name tools)

-- The handler of a tool has run: the call was valid and allowed, and its end is reported.
pub record Executed (out : Outside) (rules : List PermissionRule) (tools : List ToolDefinition)
    (call : ToolCall) (context : ExecutionContext) (s s' : Shared) (o : Option ToolResult)
    : Type 0 where
  pub tool : ToolDefinition
  pub args : ArgsModel
  pub decision : PermissionDecision
  pub found : find_tool call.tool_name tools ≡ some tool
  pub valid : model_validate tool.parameters_model call.arguments ≡ some args
  pub decided : (decide_call out rules tool args context s).0 ≡ some decision
  pub allowed : decision.action ≡ DecisionAction.allow
  pub before : Shared
  pub before_eq :
      before
      ≡ append_record call context
          (AuditPhase.decided decision.action)
          decision.code
          (decide_call out rules tool args context s).1
  pub after_eq : s' ≡ (execute_call tool call args context before).1
  pub result_eq : o ≡ some (execute_call tool call args context before).0

-- No handler has run.
pub record Unexecuted (s s' : Shared) (o : Option ToolResult) : Type 0 where
  pub same_effects : SameEffects s s'
  pub not_ok : (r : ToolResult) → o ≡ some r → r.result_ok ≡ false

unfoldable pub Course :
    Outside
    → List PermissionRule
    → List ToolDefinition
    → ToolCall
    → ExecutionContext
    → Shared
    → Option ToolResult × Shared
    → Type 0
Course out rules tools call context s (o, s') =
    Executed out rules tools call context s s' o ⊎ Unexecuted s s' o

decided-Course :
    (out : Outside) (rules : List PermissionRule) (tools : List ToolDefinition) (call : ToolCall)
    (context : ExecutionContext) (s : Shared) (tool : ToolDefinition) (args : ArgsModel)
    → find_tool call.tool_name tools ≡ some tool
    → model_validate tool.parameters_model call.arguments ≡ some args
    → (d : Option PermissionDecision) (s1 : Shared)
    → decide_call out rules tool args context s ≡ (d, s1)
    → Course out rules tools call context s (after_decision tool call args context d s1)
unfolding Course
decided-Course out rules tools call context s tool args f v none s1 h = inr (record {
  same_effects =
      subst (SameEffects s) (ap (λ x. x.1) h)
        (decide_call-SameEffects out rules tool args context s);
  not_ok = λ r e. cc;
})
decided-Course out rules tools call context s tool args f v (some d) s1 h =
    let kept =
      subst (SameEffects s) (ap (λ x. x.1) h)
        (decide_call-SameEffects out rules tool args context s) in
    elim (Bool-cases (d.action /= DecisionAction.allow)) [
      | inl e ↦ rw (e) (
          inr (record {
            same_effects = record {
              same_accounts = kept.same_accounts;
              same_refunds = kept.same_refunds;
              same_shells = kept.same_shells;
            };
            not_ok = λ r k. ground (arith, k);
          }))
      | inr e ↦ rw (e) (
          inl (record {
            tool = tool;
            args = args;
            decision = d;
            found = f;
            valid = v;
            decided = ap (λ x. x.0) h;
            allowed = ground (arith, e);
            before = append_record call context (AuditPhase.decided d.action) d.code s1;
            before_eq =
                ap (append_record call context (AuditPhase.decided d.action) d.code)
                  (sym (ap (λ x. x.1) h));
            after_eq = refl;
            result_eq = refl;
          }))
    ]

rejected-Course :
    (out : Outside) (rules : List PermissionRule) (tools : List ToolDefinition) (call : ToolCall)
    (context : ExecutionContext) (s : Shared) (c : Code)
    → Course out rules tools call context s
        (some (rejected call context c s).0, (rejected call context c s).1)
unfolding Course
rejected-Course out rules tools call context s c = inr (record {
  same_effects = record { same_accounts = refl; same_refunds = refl; same_shells = refl };
  not_ok = λ r k. ground (arith, k);
})

validated-Course :
    (out : Outside) (rules : List PermissionRule) (tools : List ToolDefinition) (call : ToolCall)
    (context : ExecutionContext) (s : Shared) (tool : ToolDefinition)
    → find_tool call.tool_name tools ≡ some tool
    → (o : Option ArgsModel) → model_validate tool.parameters_model call.arguments ≡ o
    → Course out rules tools call context s (after_validation out rules tool call context s o)
unfolding invoke_valid
validated-Course out rules tools call context s tool f none v =
    rejected-Course out rules tools call context s Code.invalid_argument
validated-Course out rules tools call context s tool f (some args) v =
    decided-Course out rules tools call context s tool args f v _ _ refl

found-Course :
    (out : Outside) (rules : List PermissionRule) (tools : List ToolDefinition) (call : ToolCall)
    (context : ExecutionContext) (s : Shared) (o : Option ToolDefinition)
    → find_tool call.tool_name tools ≡ o
    → Course out rules tools call context s (with_tool out rules call context s o)
found-Course out rules tools call context s none f =
    rejected-Course out rules tools call context s Code.tool_not_found
found-Course out rules tools call context s (some tool) f =
    validated-Course out rules tools call context s tool f _ refl

pub invoke-Course :
    (out : Outside) (rules : List PermissionRule) (tools : List ToolDefinition) (call : ToolCall)
    (context : ExecutionContext) (s : Shared)
    → Course out rules tools call context s (invoke out rules tools call context s)
unfolding invoke
invoke-Course out rules tools call context s =
    found-Course out rules tools call context s (find_tool call.tool_name tools) refl

-- All tools of a list have the property.
pub data Every (P : ToolDefinition → Type 0) : List ToolDefinition → Type 0 where
  no_tool : Every P []
  tool_and :
      {tool : ToolDefinition} {tools : List ToolDefinition}
      → P tool
      → Every P tools
      → Every P (tool ∷ tools)

pub find_tool-Every :
    (P : ToolDefinition → Type 0) (n : Text) (tools : List ToolDefinition) (tool : ToolDefinition)
    → Every P tools
    → find_tool n tools ≡ some tool
    → P tool
unfolding find_tool
find_tool-Every P n [] tool e h = cc
find_tool-Every P n (t ∷ tools) tool (tool_and p e) h = elim (Bool-cases (t.name == n)) [
  | inl k ↦ subst P (ground (arith, h, k)) p
  | inr k ↦ find_tool-Every P n tools tool e (ground (arith, h, k))
]
