-- ===== src/Tests/World.antt =====
-- The data of the tests: one run with a lease, a call and an approval.
use my_ai_agent_fullstack_tr.Base.{
  List-discrete, Option-discrete, Pair-discrete, [], false, list_eq, nat_eq, none, option_eq,
  pair_eq, some, true, ℕ, ℕ_discrete, ◌+◌, ◌∷◌,
}
use my_ai_agent_fullstack_tr.Approval.{approval_is_valid}
use my_ai_agent_fullstack_tr.Audit.{append, verify_chain}
use my_ai_agent_fullstack_tr.Domain.Models.{
  Approval, Run, Text, ToolInvocation, approval_fields_fit, approval_times_fit, invocation_is_valid,
  run_is_valid, usage_fits,
}
use my_ai_agent_fullstack_tr.Domain.Status.{
  AcceptanceStatus, AcceptanceStatus-discrete, ApprovalStatus, ApprovalStatus-discrete,
  BudgetCategory-discrete, BudgetSourceKind-discrete, InvocationStatus, InvocationStatus-discrete,
  RunStatus, RunStatus-discrete, StopReason, StopReason-discrete, TaskKind, acceptance_status_eq,
  approval_status_eq, invocation_status_eq, run_status_eq, stop_reason_eq, task_kind_eq,
}
use my_ai_agent_fullstack_tr.State.Access.{append_event}
use my_ai_agent_fullstack_tr.Storage.Exec.{transaction, ◌>>=◌}
use my_ai_agent_fullstack_tr.Storage.Rows.{Db, Env}
use my_ai_agent_fullstack_tr.Storage.Table.{lookup, put}

-- The clock stands still.
abbrev pub at_time : ℕ → Text → Env
at_time now actor = record {
  actor = actor;
  clock = λ _. now;
  new_token = 70;
  new_approval_id = 9;
  strip = λ t. t;
  casefold = λ t. t;
  sort = λ ts. ts;
  is_upper = λ _. true;
  is_digit = λ _. false;
  token_digest = λ t. t + 1;
  event_digest = λ p. p.sequence + 1;
  args_digest = λ _ args. args;
  binding_digest = λ b. b.tool_call_id + b.expires_at;
}

abbrev pub agent : Text
agent = 65 ∷ []

abbrev pub reviewer : Text
reviewer = 66 ∷ []

abbrev pub lead : Text
lead = 76 ∷ []

abbrev pub run_in : RunStatus → Run
run_in status = record {
  run_id = 1;
  trace_id = 2;
  task_id = 3;
  task_kind = TaskKind.test_repair;
  task_description = [];
  config_fingerprint = 4;
  workspace = record {
    git_root = 5;
    workspace_root = 5;
    workspace_prefix = 6;
    baseline_fingerprint = 7;
    external_dirty_baseline_fingerprint = 8;
  };
  budget = record {
    max_steps = 5;
    max_tool_calls = 5;
    max_token_cost = 5;
    max_wall_time_seconds = 50;
  };
  usage = record { steps = 0; tool_calls = 0; token_cost = 0; wall_time_seconds = 0 };
  status = status;
  stop_reason = none;
  acceptance_status = AcceptanceStatus.not_evaluated;
  current_step_id = none;
  last_checkpoint_id = none;
  resumed_from_checkpoint_id = none;
  candidate_final_answer = none;
  created_at = 10;
  updated_at = 10;
  started_at = none;
  ended_at = none;
}

abbrev pub ended_run : Run
ended_run = record (run_in RunStatus.stopped) {
  stop_reason = some StopReason.approval_rejected;
  ended_at = some 12;
}

abbrev pub call_in : InvocationStatus → ToolInvocation
call_in status = record {
  tool_call_id = 20;
  run_id = 1;
  step_id = 30;
  tool_name = agent;
  raw_args = 40;
  normalized_args = 40;
  args_digest = 40;
  idempotent = false;
  status = status;
  approval_id = some 8;
  result_summary = none;
  evidence_ids = [];
  error_code = none;
  created_at = 10;
  updated_at = 10;
}

abbrev pub pending_approval : Approval
pending_approval = record {
  approval_id = 8;
  run_id = 1;
  tool_call_id = 20;
  task_id = 3;
  task_kind = TaskKind.test_repair;
  git_root = 5;
  workspace_root = 5;
  workspace_prefix = 6;
  tool_name = agent;
  canonical_args_digest = 40;
  binding_digest = 120;
  config_fingerprint = 4;
  requested_by = agent;
  allowed_approver_roles = lead ∷ [];
  status = ApprovalStatus.pending;
  revision = 0;
  requested_at = 11;
  expires_at = 100;
  decided_at = none;
  decided_by = none;
  claimed_at = none;
  execution_intent_id = none;
  consumed_at = none;
  consumption_code = none;
}

abbrev pub approved_approval : Approval
approved_approval = record pending_approval {
  status = ApprovalStatus.approved;
  revision = 1;
  decided_at = some 12;
  decided_by = some reviewer;
}

abbrev pub claimed_approval : Approval
claimed_approval = record approved_approval {
  status = ApprovalStatus.claimed;
  revision = 2;
  claimed_at = some 13;
  execution_intent_id = some 20;
}

-- The token of the run's lease.
abbrev pub lease_token : ℕ
lease_token = 60

abbrev pub world : Run → ToolInvocation → Approval → Db
world r i a = record {
  runs = (1, record { run = r; revision = 0 }) ∷ [];
  steps = [];
  tool_calls = ((1, 20), record { invocation = i; revision = 1 }) ∷ [];
  run_leases =
      (
        1,
        record {
          owner_id = agent;
          token_digest = 61;
          acquired_at = 10;
          heartbeat_at = 10;
          expires_at = 90;
        },
      )
      ∷ [];
  budget_ledger = [];
  approvals = (8, a) ∷ [];
  audit_events = [];
}

-- To open this opens what every run of an operation computes with.
unfoldable pub shared_steps : Db → Db
unfolding ◌>>=◌ append_event append verify_chain transaction approval_is_valid approval_fields_fit
    approval_times_fit run_is_valid invocation_is_valid usage_fits lookup put ℕ_discrete
    List-discrete Option-discrete Pair-discrete ApprovalStatus-discrete RunStatus-discrete
    InvocationStatus-discrete AcceptanceStatus-discrete StopReason-discrete BudgetCategory-discrete
    BudgetSourceKind-discrete
shared_steps db = db
