-- ===== src/Runtime/Reports.antt =====
-- What `invoke` of tool_governance_demo.py reports: its result, and the records of the audit.
use my_ai_agent_fullstack_tr.Base.{
  Bool-cases, List, Option, [], ap, append_assoc, arith, false, if◌then◌else◌, inl, inr, list_eq,
  nat_eq, option_eq, pair_eq, refl, some, ◌++◌, ◌/=◌, ◌∙◌, ◌∷◌, ◌≡◌, ◌≢◌,
}
use my_ai_agent_fullstack_tr.Domain.Models.{Text}
use my_ai_agent_fullstack_tr.Runtime.{
  ArgsModel, AuditPhase, AuditRecord, Code, DecisionAction, DecisionAction-discrete,
  ExecutionContext, Outside, PermissionDecision, PermissionRule, Shared, ToolCall, ToolDefinition,
  ToolResult, Value, Verdict, code_eq, decision_action_eq,
}
use my_ai_agent_fullstack_tr.Runtime.Approvals.{consume_approval}
use my_ai_agent_fullstack_tr.Runtime.Args.{model_validate}
use my_ai_agent_fullstack_tr.Runtime.Engine.{
  after_precheck, decide_call, run_precheck, seek_approval,
}
use my_ai_agent_fullstack_tr.Runtime.Invoke.{
  Ending, after_decision, append_record, execute_call, execute_with_recovery, record_of, rejected,
  report, result,
}
use my_ai_agent_fullstack_tr.Runtime.Tools.{
  create_refund_handler, get_order_handler, simulated_shell_handler, transfer_handler,
}
use my_ai_agent_fullstack_tr.Runtime.Untouched.{Untouching, execute_with_recovery-part}
use my_ai_agent_fullstack_tr.Storage.Table.{Table}

pub get_order_handler-records :
    (args : ArgsModel) (context : ExecutionContext) (s : Shared)
    → (get_order_handler args context s).effects.records ≡ s.records
unfolding get_order_handler
get_order_handler-records (ArgsModel.get_order order_id) context s = ground (arith)
get_order_handler-records (ArgsModel.create_refund order_id amount why) context s = refl
get_order_handler-records (ArgsModel.run_shell command) context s = refl
get_order_handler-records (ArgsModel.transfer from_account to_account amount) context s = refl

pub create_refund_handler-records :
    (args : ArgsModel) (context : ExecutionContext) (s : Shared)
    → (create_refund_handler args context s).effects.records ≡ s.records
unfolding create_refund_handler
create_refund_handler-records (ArgsModel.get_order order_id) context s = refl
create_refund_handler-records (ArgsModel.create_refund order_id amount why) context s = refl
create_refund_handler-records (ArgsModel.run_shell command) context s = refl
create_refund_handler-records (ArgsModel.transfer from_account to_account amount) context s = refl

pub simulated_shell_handler-records :
    (args : ArgsModel) (context : ExecutionContext) (s : Shared)
    → (simulated_shell_handler args context s).effects.records ≡ s.records
unfolding simulated_shell_handler
simulated_shell_handler-records (ArgsModel.get_order order_id) context s = refl
simulated_shell_handler-records (ArgsModel.create_refund order_id amount why) context s = refl
simulated_shell_handler-records (ArgsModel.run_shell command) context s = refl
simulated_shell_handler-records (ArgsModel.transfer from_account to_account amount) context s = refl

pub transfer_handler-records :
    (args : ArgsModel) (context : ExecutionContext) (s : Shared)
    → (transfer_handler args context s).effects.records ≡ s.records
unfolding transfer_handler
transfer_handler-records (ArgsModel.get_order order_id) context s = refl
transfer_handler-records (ArgsModel.create_refund order_id amount why) context s = refl
transfer_handler-records (ArgsModel.run_shell command) context s = refl
transfer_handler-records (ArgsModel.transfer from_account to_account amount) context s =
    ground (arith)

after_precheck-records :
    (out : Outside) (rules : List PermissionRule) (tool : ToolDefinition) (args : ArgsModel)
    (context : ExecutionContext) (s : Shared) (v : Verdict)
    → (after_precheck out rules tool args context s v).1.records ≡ s.records
unfolding seek_approval consume_approval
after_precheck-records out rules tool args context s Verdict.raises = refl
after_precheck-records out rules tool args context s (Verdict.denies c) = refl
after_precheck-records out rules tool args context s Verdict.passes = ground (arith)

pub decide_call-records :
    (out : Outside) (rules : List PermissionRule) (tool : ToolDefinition) (args : ArgsModel)
    (context : ExecutionContext) (s : Shared)
    → (decide_call out rules tool args context s).1.records ≡ s.records
unfolding decide_call
decide_call-records out rules tool args context s =
    ground (
      arith,
      after_precheck-records out rules tool args context s (run_precheck tool args context s),
    )

-- A tool whose precheck accepts what its model validates, and whose handler writes no audit record.
pub record Plain (tool : ToolDefinition) : Type 0 where
  pub quiet : Untouching (λ s. s.records) tool
  pub fits :
      (t : Table Text Value) (args : ArgsModel) (context : ExecutionContext) (s : Shared)
      → model_validate tool.parameters_model t ≡ some args
      → run_precheck tool args context s ≢ Verdict.raises

-- The records of one call, for its result: it was stopped by a decision, or executed.
pub data Trail (call : ToolCall) (context : ExecutionContext) (r : ToolResult)
    : List AuditRecord → Type 0 where
  stopped :
      r.result_ok ≡ false
      → r.result_action ≢ DecisionAction.allow
      → Trail call context r
          (record_of call context (AuditPhase.decided r.result_action) r.result_code ∷ [])
  carried :
      (c : Code)
      → Trail call context r (
          record_of call context (AuditPhase.decided DecisionAction.allow) c
          ∷ record_of call context
              (if r.result_ok then AuditPhase.executed else AuditPhase.failed)
              r.result_code
          ∷ [])

-- A result was returned, and recorded.
pub record Reported (call : ToolCall) (context : ExecutionContext) (s : Shared)
    (o : Option ToolResult) (s' : Shared) : Type 0 where
  pub result : ToolResult
  pub returned : o ≡ some result
  pub trail : List AuditRecord
  pub recorded : s'.records ≡ s.records ++ trail
  pub in_form : Trail call context result trail

then_record :
    (before l : List AuditRecord) (x y : AuditRecord)
    → l ≡ before ++ x ∷ []
    → l ++ y ∷ [] ≡ before ++ x ∷ y ∷ []
then_record before l x y h = ap (λ z. z ++ y ∷ []) h ∙ append_assoc before (x ∷ []) (y ∷ [])

report-Trail :
    (tool : ToolDefinition) (call : ToolCall) (context : ExecutionContext) (e : Ending) (c : Code)
    (before : List AuditRecord) (s : Shared)
    → s.records ≡ before ++ record_of call context (AuditPhase.decided DecisionAction.allow) c ∷ []
    → (trail : List AuditRecord) × ((report tool call context e s).1.records ≡ before ++ trail)
      × Trail call context (report tool call context e s).0 trail
report-Trail tool call context Ending.returned c before s h =
    (_, then_record before _ _ _ h, Trail.carried c)
report-Trail tool call context Ending.timed_out c before s h =
    (_, then_record before _ _ _ h, Trail.carried c)
report-Trail tool call context Ending.exhausted c before s h =
    (_, then_record before _ _ _ h, Trail.carried c)
report-Trail tool call context Ending.raised c before s h =
    (_, then_record before _ _ _ h, Trail.carried c)
report-Trail tool call context (Ending.refused k) c before s h =
    (_, then_record before _ _ _ h, Trail.carried c)

pub after_decision-Reported :
    (tool : ToolDefinition) (call : ToolCall) (args : ArgsModel) (context : ExecutionContext)
    (d : PermissionDecision) (s s1 : Shared)
    → Untouching (λ b. b.records) tool
    → s1.records ≡ s.records
    → let (o, s') = after_decision tool call args context (some d) s1 in
      Reported call context s o s'
unfolding execute_call
after_decision-Reported tool call args context d s s1 g h =
    let s2 = append_record call context (AuditPhase.decided d.action) d.code s1 in
    let r = execute_with_recovery tool args context s2 in
    let e : r.after.records ≡ s2.records =
      execute_with_recovery-part (λ b. b.records) tool args context s2 g in
    elim (Bool-cases (d.action /= DecisionAction.allow)) [
      | inl k ↦ rw (k) (record {
        result = result false d.action d.code;
        returned = refl;
        trail = record_of call context (AuditPhase.decided d.action) d.code ∷ [];
        recorded =
            ap (λ l. l ++ record_of call context (AuditPhase.decided d.action) d.code ∷ []) h;
        in_form = Trail.stopped refl (ground (arith, k));
      })
      | inr k ↦
          let a : d.action ≡ DecisionAction.allow = ground (arith, k) in
          let written =
            e
            ∙ ap (λ l. l ++ record_of call context (AuditPhase.decided d.action) d.code ∷ []) h
            ∙ ap (λ x. s.records ++ record_of call context (AuditPhase.decided x) d.code ∷ []) a in
          let (trail, recorded, form) =
            report-Trail tool call context r.ending d.code s.records r.after written in
          rw (k) (record {
            result = (report tool call context r.ending r.after).0;
            returned = refl;
            trail = trail;
            recorded = recorded;
            in_form = form;
          })
    ]

pub rejected-Reported :
    (call : ToolCall) (context : ExecutionContext) (c : Code) (s : Shared)
    → Reported call context s (some (rejected call context c s).0) (rejected call context c s).1
unfolding DecisionAction-discrete
rejected-Reported call context c s = record {
  result = result false DecisionAction.deny c;
  returned = refl;
  trail = record_of call context (AuditPhase.decided DecisionAction.deny) c ∷ [];
  recorded = refl;
  in_form = Trail.stopped refl (λ e. cc);
}
