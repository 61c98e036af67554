-- ===== src/Domain/Status.antt =====
-- The lifecycle enumerations of week03_guarded-harness/src/guarded_harness/domain.py that the
-- stores branch on, with Python's `==` on them.
use my_ai_agent_fullstack_tr.Base.{Eq}

pub data TaskKind : Type 0 where
  code_understanding test_repair : TaskKind

pub data RunStatus : Type 0 where
  new running waiting_approval verifying completed stopped failed blocked : RunStatus

pub data StopReason : Type 0 where
  final_answer budget_exhausted approval_required approval_rejected approval_expired : StopReason
  gate_blocked unknown_result workspace_changed internal_error : StopReason

pub data AcceptanceStatus : Type 0 where
  not_evaluated accepted rejected unverifiable : AcceptanceStatus

pub data StepStatus : Type 0 where
  planned running completed failed : StepStatus

pub data InvocationStatus : Type 0 where
  prepared started succeeded failed timed_out unknown_result : InvocationStatus

pub data ApprovalStatus : Type 0 where
  pending approved claimed consumed rejected expired invalidated : ApprovalStatus

pub data ApprovalDecision : Type 0 where
  approve reject : ApprovalDecision

pub data GatePhase : Type 0 where
  visibility schema semantic permission risk approval repeat budget execution : GatePhase

pub data BudgetSourceKind : Type 0 where
  step tool_call harness : BudgetSourceKind

pub data BudgetCategory : Type 0 where
  steps tool_calls token_cost wall_time : BudgetCategory

unfoldable pub TaskKind-discrete : Discrete TaskKind
TaskKind-discrete = hlevel

unfoldable pub RunStatus-discrete : Discrete RunStatus
RunStatus-discrete = hlevel

unfoldable pub StopReason-discrete : Discrete StopReason
StopReason-discrete = hlevel

unfoldable pub AcceptanceStatus-discrete : Discrete AcceptanceStatus
AcceptanceStatus-discrete = hlevel

unfoldable pub StepStatus-discrete : Discrete StepStatus
StepStatus-discrete = hlevel

unfoldable pub InvocationStatus-discrete : Discrete InvocationStatus
InvocationStatus-discrete = hlevel

unfoldable pub ApprovalStatus-discrete : Discrete ApprovalStatus
ApprovalStatus-discrete = hlevel

unfoldable pub ApprovalDecision-discrete : Discrete ApprovalDecision
ApprovalDecision-discrete = hlevel

unfoldable pub BudgetSourceKind-discrete : Discrete BudgetSourceKind
BudgetSourceKind-discrete = hlevel

unfoldable pub BudgetCategory-discrete : Discrete BudgetCategory
BudgetCategory-discrete = hlevel

instance abbrev pub task_kind_eq : Eq TaskKind
task_kind_eq = record { dec = TaskKind-discrete }

instance abbrev pub run_status_eq : Eq RunStatus
run_status_eq = record { dec = RunStatus-discrete }

instance abbrev pub stop_reason_eq : Eq StopReason
stop_reason_eq = record { dec = StopReason-discrete }

instance abbrev pub acceptance_status_eq : Eq AcceptanceStatus
acceptance_status_eq = record { dec = AcceptanceStatus-discrete }

instance abbrev pub step_status_eq : Eq StepStatus
step_status_eq = record { dec = StepStatus-discrete }

instance abbrev pub invocation_status_eq : Eq InvocationStatus
invocation_status_eq = record { dec = InvocationStatus-discrete }

instance abbrev pub approval_status_eq : Eq ApprovalStatus
approval_status_eq = record { dec = ApprovalStatus-discrete }

instance abbrev pub approval_decision_eq : Eq ApprovalDecision
approval_decision_eq = record { dec = ApprovalDecision-discrete }

instance abbrev pub budget_source_kind_eq : Eq BudgetSourceKind
budget_source_kind_eq = record { dec = BudgetSourceKind-discrete }

instance abbrev pub budget_category_eq : Eq BudgetCategory
budget_category_eq = record { dec = BudgetCategory-discrete }
