-- ===== src/Runtime/OneUse.antt =====
-- An approval of tool_governance_demo.py lets one call pass.
use my_ai_agent_fullstack_tr.Base.{
  Bool, Bool-cases, List, Option, [], arith, false, if◌then◌else◌, inl, inr, list_eq, nat_eq, none,
  option_eq, or_else, pair_eq, refl, some, true, ℕ, ◌&&◌, ◌+◌, ◌==◌, ◌≡◌,
}
use my_ai_agent_fullstack_tr.Domain.Models.{Text}
use my_ai_agent_fullstack_tr.Runtime.{
  ApprovalRecord, ArgsModel, DecisionAction, DecisionAction-discrete, DecisionSource,
  DecisionSource-discrete, ExecutionContext, Outside, PermissionDecision, PermissionRule, Shared,
  ToolDefinition, Verdict, decision_action_eq, decision_source_eq,
}
use my_ai_agent_fullstack_tr.Runtime.Approvals.{consume_approval, is_valid, mark_used}
use my_ai_agent_fullstack_tr.Runtime.Conditions.{is_valid-Usable}
use my_ai_agent_fullstack_tr.Runtime.Engine.{
  after_precheck, decide_call, judge, run_precheck, seek_approval,
}
use my_ai_agent_fullstack_tr.Storage.Table.{Table, lookup, lookup-put}

-- 1 if the approval is there and unused.
unfoldable pub live_record : Option ApprovalRecord → ℕ
live_record none = 0
live_record (some r) = if r.used then 0 else 1

unfoldable pub live : Text → Shared → ℕ
unfolding live_record
live id s = live_record (lookup id s.approvals)

-- A decision that has used an approval up.
unfoldable pub spends : Option PermissionDecision → Bool
spends none = false
spends (some d) = d.source == DecisionSource.approval && d.action == DecisionAction.allow

-- 1 if the call was allowed with this approval.
unfoldable pub spent : Text → ExecutionContext → Option PermissionDecision → ℕ
unfolding spends
spent id context d = if or_else context.approval_id [] == id && spends d then 1 else 0

mark_used-live :
    (id key : Text) (o : Option ApprovalRecord) (t : Table Text ApprovalRecord)
    → lookup key t ≡ o
    → (r : ApprovalRecord) → o ≡ some r
    → r.used ≡ false
    → (if key == id then 1 else 0) + live_record (lookup id (mark_used key o t))
      ≡ live_record (lookup id t)
unfolding live_record
mark_used-live id key none t h r e u = cc
mark_used-live id key (some r') t h r e u =
    ground (arith, h, e, u, lookup-put key id (record r' { used = true }) t)

consume_approval-live :
    (id : Text) (out : Outside) (context : ExecutionContext) (name : Text) (args : ArgsModel)
    (s : Shared)
    → let (b, s') = consume_approval out context name args s in
      (if or_else context.approval_id [] == id && b then 1 else 0) + live id s' ≡ live id s
unfolding consume_approval live
consume_approval-live id out context name args s =
    let key = or_else context.approval_id [] in
    elim (Bool-cases (is_valid out context name args (lookup key s.approvals))) [
      | inl e ↦
          let (r, found, usable) = is_valid-Usable out context name args _ e in
          let m =
            mark_used-live id key (lookup key s.approvals) s.approvals refl r found usable.unused in
          ground (arith, e, m)
      | inr e ↦ ground (arith, e)
    ]

judge-spends :
    (out : Outside) (rules : List PermissionRule) (tool : ToolDefinition) (args : ArgsModel)
    (context : ExecutionContext)
    → spends (some (judge out rules tool args context)) ≡ false
unfolding judge spends DecisionSource-discrete
judge-spends out rules tool args context = ground (arith)

after_precheck-live :
    (id : Text) (out : Outside) (rules : List PermissionRule) (tool : ToolDefinition)
    (args : ArgsModel) (context : ExecutionContext) (s : Shared) (v : Verdict)
    → let (d, s') = after_precheck out rules tool args context s v in
      spent id context d + live id s' ≡ live id s
unfolding seek_approval spent spends DecisionSource-discrete DecisionAction-discrete
after_precheck-live id out rules tool args context s Verdict.raises = ground (arith)
after_precheck-live id out rules tool args context s (Verdict.denies c) = ground (arith)
after_precheck-live id out rules tool args context s Verdict.passes =
    let j = judge-spends out rules tool args context in
    let c = consume_approval-live id out context tool.name args s in ground (arith, j, c)

pub decide_call-live :
    (id : Text) (out : Outside) (rules : List PermissionRule) (tool : ToolDefinition)
    (args : ArgsModel) (context : ExecutionContext) (s : Shared)
    → let (d, s') = decide_call out rules tool args context s in
      spent id context d + live id s' ≡ live id s
unfolding decide_call spent spends DecisionSource-discrete DecisionAction-discrete
decide_call-live id out rules tool args context s =
    let a =
      after_precheck-live id out rules tool args context s (run_precheck tool args context s) in
    ground (arith, a)
