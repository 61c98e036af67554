-- ===== src/Storage/Rows.antt =====
-- The tables of week03_guarded-harness/src/guarded_harness/storage.py, and what an operation takes
-- from outside: the clock, the text functions of Python, SHA-256.
use my_ai_agent_fullstack_tr.Base.{Bool, List, Option, ℕ, ◌+◌}
use my_ai_agent_fullstack_tr.Domain.Models.{Approval, Run, StableCode, Step, Text, ToolInvocation}
use my_ai_agent_fullstack_tr.Domain.Status.{BudgetCategory, BudgetSourceKind, GatePhase, TaskKind}
use my_ai_agent_fullstack_tr.Storage.Table.{Table}

-- `class AuditEventType` of audit.py
pub data AuditEventType : Type 0 where
  run_created run_started run_waiting_approval run_verifying run_completed : AuditEventType
  run_stopped run_failed run_blocked run_plan_updated run_lease_acquired : AuditEventType
  run_lease_takeover run_lease_released step_planned step_started step_completed : AuditEventType
  step_failed tool_prepared tool_started tool_succeeded tool_failed tool_timed_out : AuditEventType
  tool_unknown_result evidence_recorded evidence_invalidated budget_updated : AuditEventType
  completion_recorded completion_checked test_baseline_captured : AuditEventType
  test_execution_recorded gate_decision approval_requested approval_decided : AuditEventType
  approval_expired approval_invalidated approval_claimed approval_claim_recovered : AuditEventType
  approval_consumed checkpoint_written recovery_recorded : AuditEventType

-- `class AuditStatus`
pub data AuditStatus : Type 0 where
  pending allowed denied started succeeded failed timed_out : AuditStatus
  unknown_result stopped blocked : AuditStatus

-- `class AuditDecision`
pub data AuditDecision : Type 0 where
  allow deny not_applicable : AuditDecision

-- The `rule_id` of an event: one that the approval store writes, or another text.
pub data RuleId : Type 0 where
  approval_binding_v1 approval_role_policy approval_ttl : RuleId
  rule : Text → RuleId

-- `class AuditEventDraft`, without its two summaries.
pub record AuditEventDraft : Type 0 where
  pub run_id : ℕ
  pub event_type : AuditEventType
  pub phase : GatePhase
  pub status : AuditStatus
  pub decision : AuditDecision
  pub code : Option StableCode
  pub step_id : Option ℕ
  pub tool_call_id : Option ℕ
  pub approval_id : Option ℕ
  pub tool_name : Option Text
  pub rule_id : Option RuleId
  pub evidence_ref : Option ℕ

-- What `_record_payload` hashes, without the two summaries. The identifier of an event is the text
-- that `_event_id` writes of a run and a sequence number, and is kept as these two.
pub record AuditPayload : Type 0 where
  pub schema_version : ℕ
  pub event_id : ℕ × ℕ
  pub sequence : ℕ
  pub occurred_at : ℕ
  pub draft : AuditEventDraft
  pub actor : Text
  pub workspace_fingerprint : ℕ
  pub prev_hash : ℕ

-- `class AuditEventRecord`
pub record AuditEventRecord : Type 0 where
  pub payload : AuditPayload
  pub event_hash : ℕ

-- A row with its `revision` column.
pub record RunRow : Type 0 where
  pub run : Run
  pub revision : ℕ

pub record StepRow : Type 0 where
  pub step : Step
  pub revision : ℕ

pub record ToolCallRow : Type 0 where
  pub invocation : ToolInvocation
  pub revision : ℕ

-- `run_leases`
pub record LeaseRow : Type 0 where
  pub owner_id : Text
  pub token_digest : ℕ
  pub acquired_at : ℕ
  pub heartbeat_at : ℕ
  pub expires_at : ℕ

-- The key of a row of `budget_ledger`.
pub record BudgetSource : Type 0 where
  pub run_id : ℕ
  pub source_kind : BudgetSourceKind
  pub source_id : ℕ
  pub category : BudgetCategory

-- A row of `budget_ledger`.
pub record LedgerEntry : Type 0 where
  pub source : BudgetSource
  pub delta : ℕ

pub record Db : Type 0 where
  pub runs : Table ℕ RunRow
  pub steps : Table ℕ StepRow
  pub tool_calls : Table (ℕ × ℕ) ToolCallRow
  pub run_leases : Table ℕ LeaseRow
  pub budget_ledger : List LedgerEntry
  pub approvals : Table ℕ Approval
  pub audit_events : List AuditEventRecord

-- The parts of an approval that `approval_binding_digest` hashes.
pub record Binding : Type 0 where
  pub run_id : ℕ
  pub tool_call_id : ℕ
  pub task_id : ℕ
  pub task_kind : TaskKind
  pub git_root : ℕ
  pub workspace_root : ℕ
  pub workspace_prefix : ℕ
  pub tool_name : Text
  pub canonical_args_digest : ℕ
  pub config_fingerprint : ℕ
  pub requested_by : Text
  pub allowed_approver_roles : List Text
  pub requested_at : ℕ
  pub expires_at : ℕ

-- The surroundings of an operation: the actor of the transaction, the readings of the clock in the
-- order in which the operation may take them, fresh identifiers, and functions of Python's library.
pub record Env : Type 0 where
  pub actor : Text
  pub clock : ℕ → ℕ
  pub new_token : ℕ
  pub new_approval_id : ℕ
  pub strip : Text → Text
  pub casefold : Text → Text
  pub sort : List Text → List Text
  pub is_upper : ℕ → Bool
  pub is_digit : ℕ → Bool
  pub token_digest : ℕ → ℕ
  pub event_digest : AuditPayload → ℕ
  pub args_digest : Text → ℕ → ℕ
  pub binding_digest : Binding → ℕ

-- The surroundings of a call made after `n` readings.
abbrev pub later : ℕ → Env → Env
later n env = record env { clock = λ k. env.clock (n + k) }
