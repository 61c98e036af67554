-- ===== src/Domain/Models.antt =====
-- The models of week03_guarded-harness/src/guarded_harness/domain.py that the stores persist, and
-- the checks of their `model_post_init`. Identifiers, digests and tokens are only compared, and are
-- numbers; so are instants, in microseconds. Texts that the code inspects are lists of code points.
use my_ai_agent_fullstack_tr.Base.{
  Bool, List, Option, [], contains, false, if◌then◌else◌, is_some, leb, list_eq, ltb, nat_eq, none,
  not, option_eq, pair_eq, some, true, ℕ, ◌&&◌, ◌==◌, ◌||◌, ◌∷◌,
}
use my_ai_agent_fullstack_tr.Domain.ErrorCode.{ErrorCode}
use my_ai_agent_fullstack_tr.Domain.Status.{
  AcceptanceStatus, ApprovalStatus, InvocationStatus, RunStatus, StepStatus, StopReason, TaskKind,
  acceptance_status_eq, approval_status_eq, invocation_status_eq, run_status_eq, step_status_eq,
  stop_reason_eq, task_kind_eq,
}

abbrev pub Text : Type 0
Text = List ℕ

-- A `StableErrorCode`: the value of an enumeration member, or a text of the caller.
pub data StableCode : Type 0 where
  error : ErrorCode → StableCode
  stop : StopReason → StableCode
  text : Text → StableCode

-- Python's truth of an optional code: `None` and the empty text are false.
abbrev pub is_truthy : Option StableCode → Bool
is_truthy none = false
is_truthy (some (text [])) = false
is_truthy (some c) = true

-- `class WorkspaceIdentity`
pub record WorkspaceIdentity : Type 0 where
  pub git_root : ℕ
  pub workspace_root : ℕ
  pub workspace_prefix : ℕ
  pub baseline_fingerprint : ℕ
  pub external_dirty_baseline_fingerprint : ℕ

-- `class RunBudget`. A `Decimal` is a number of units of its smallest decimal place.
pub record RunBudget : Type 0 where
  pub max_steps : ℕ
  pub max_tool_calls : ℕ
  pub max_token_cost : ℕ
  pub max_wall_time_seconds : ℕ

-- `class BudgetUsage`
pub record BudgetUsage : Type 0 where
  pub steps : ℕ
  pub tool_calls : ℕ
  pub token_cost : ℕ
  pub wall_time_seconds : ℕ

-- `class Run`
pub record Run : Type 0 where
  pub run_id : ℕ
  pub trace_id : ℕ
  pub task_id : ℕ
  pub task_kind : TaskKind
  pub task_description : Text
  pub config_fingerprint : ℕ
  pub workspace : WorkspaceIdentity
  pub budget : RunBudget
  pub usage : BudgetUsage
  pub status : RunStatus
  pub stop_reason : Option StopReason
  pub acceptance_status : AcceptanceStatus
  pub current_step_id : Option ℕ
  pub last_checkpoint_id : Option ℕ
  pub resumed_from_checkpoint_id : Option ℕ
  pub candidate_final_answer : Option Text
  pub created_at : ℕ
  pub updated_at : ℕ
  pub started_at : Option ℕ
  pub ended_at : Option ℕ

-- An optional instant that is given does not precede `t`.
abbrev not_before : ℕ → Option ℕ → Bool
not_before t none = true
not_before t (some u) = leb t u

abbrev in_order : Option ℕ → Option ℕ → Bool
in_order none u = true
in_order (some t) u = not_before t u

unfoldable pub usage_fits : BudgetUsage → RunBudget → Bool
usage_fits u b =
    leb u.steps b.max_steps
    && leb u.tool_calls b.max_tool_calls
    && leb u.token_cost b.max_token_cost
    && leb u.wall_time_seconds b.max_wall_time_seconds

-- `Run.model_post_init`: whether it raises nothing.
unfoldable pub run_is_valid : Run → Bool
run_is_valid r =
    not (r.run_id == r.trace_id)
    && usage_fits r.usage r.budget
    && leb r.created_at r.updated_at
    && not_before r.created_at r.started_at
    && in_order r.started_at r.ended_at

-- `class Step`
pub record Step : Type 0 where
  pub step_id : ℕ
  pub run_id : ℕ
  pub ordinal : ℕ
  pub status : StepStatus
  pub summary : Text
  pub started_at : ℕ
  pub ended_at : Option ℕ

-- `Step.model_post_init`
unfoldable pub step_is_valid : Step → Bool
step_is_valid s = not_before s.started_at s.ended_at

-- `class ToolInvocation`. The argument objects are represented by numbers, and the risk and the
-- permissions, on which no operation of the stores branches, are left out.
pub record ToolInvocation : Type 0 where
  pub tool_call_id : ℕ
  pub run_id : ℕ
  pub step_id : ℕ
  pub tool_name : Text
  pub raw_args : ℕ
  pub normalized_args : ℕ
  pub args_digest : ℕ
  pub idempotent : Bool
  pub status : InvocationStatus
  pub approval_id : Option ℕ
  pub result_summary : Option Text
  pub evidence_ids : List ℕ
  pub error_code : Option StableCode
  pub created_at : ℕ
  pub updated_at : ℕ

abbrev no_repeats : List ℕ → Bool
no_repeats [] = true
no_repeats (x ∷ xs) = not (contains x xs) && no_repeats xs

-- `ToolInvocation.model_post_init`
unfoldable pub invocation_is_valid : ToolInvocation → Bool
invocation_is_valid i = leb i.created_at i.updated_at && no_repeats i.evidence_ids

-- `class Approval`
pub record Approval : Type 0 where
  pub approval_id : ℕ
  pub run_id : ℕ
  pub tool_call_id : ℕ
  pub task_id : ℕ
  pub task_kind : TaskKind
  pub git_root : ℕ
  pub workspace_root : ℕ
  pub workspace_prefix : ℕ
  pub tool_name : Text
  pub canonical_args_digest : ℕ
  pub binding_digest : ℕ
  pub config_fingerprint : ℕ
  pub requested_by : Text
  pub allowed_approver_roles : List Text
  pub status : ApprovalStatus
  pub revision : ℕ
  pub requested_at : ℕ
  pub expires_at : ℕ
  pub decided_at : Option ℕ
  pub decided_by : Option Text
  pub claimed_at : Option ℕ
  pub execution_intent_id : Option ℕ
  pub consumed_at : Option ℕ
  pub consumption_code : Option StableCode

-- The sets `requires_decision` and `requires_claim` of `Approval.model_post_init`.
abbrev requires_decision : ApprovalStatus → Bool
requires_decision ApprovalStatus.approved = true
requires_decision ApprovalStatus.claimed = true
requires_decision ApprovalStatus.consumed = true
requires_decision ApprovalStatus.rejected = true
requires_decision _ = false

abbrev requires_claim : ApprovalStatus → Bool
requires_claim ApprovalStatus.claimed = true
requires_claim ApprovalStatus.consumed = true
requires_claim _ = false

-- The field checks of `Approval.model_post_init` by status.
unfoldable pub approval_fields_fit : Approval → Bool
approval_fields_fit a =
    (not (requires_decision a.status) || (is_some a.decided_at && is_some a.decided_by))
    && (if requires_claim a.status
        then is_some a.claimed_at && is_some a.execution_intent_id
        else not (is_some a.claimed_at || is_some a.execution_intent_id))
    && (not (a.status == ApprovalStatus.pending)
        || not (is_some a.decided_at || is_some a.decided_by))
    && (if a.status == ApprovalStatus.consumed
        then is_some a.consumed_at
        else not (is_some a.consumed_at || is_some a.consumption_code))

-- The order of the instants that `Approval.model_post_init` demands.
unfoldable pub approval_times_fit : Approval → Bool
approval_times_fit a =
    ltb a.requested_at a.expires_at
    && not_before a.requested_at a.decided_at
    && in_order a.decided_at a.claimed_at
    && in_order a.decided_at a.consumed_at
    && in_order a.claimed_at a.consumed_at
