-- ===== src/Approval/Create.antt =====
-- The request of an approval for a prepared call (approval.py).
use my_ai_agent_fullstack_tr.Base.{
  Bool, List, Option, [], if◌then◌else◌, is_some, leb, list_eq, map, nat_eq, none, not, option_eq,
  pair_eq, some, ℕ, ◌&&◌, ◌+◌, ◌-◌, ◌/=◌, ◌/◌, ◌==◌, ◌||◌, ◌∷◌,
}
use my_ai_agent_fullstack_tr.Approval.{
  approval_event, approval_is_valid, current_binding, is_active, load, validate_current_binding,
}
use my_ai_agent_fullstack_tr.Domain.ErrorCode.{
  approval_binding_mismatch, approval_conflict, approval_invalid, approval_not_executable,
  approval_not_found, approval_replayed, approval_required,
}
use my_ai_agent_fullstack_tr.Domain.Models.{Approval, Run, StableCode, Text, ToolInvocation}
use my_ai_agent_fullstack_tr.Domain.Status.{
  ApprovalStatus, InvocationStatus, RunStatus, approval_status_eq, invocation_status_eq,
  run_status_eq,
}
use my_ai_agent_fullstack_tr.State.Access.{append_event, get_run, verify_lease}
use my_ai_agent_fullstack_tr.State.Lease.{seconds}
use my_ai_agent_fullstack_tr.Storage.Exec.{
  Exec, gets, modify, or_raise, pure, raise_if, ◌>>=◌, ◌>>◌,
}
use my_ai_agent_fullstack_tr.Storage.Rows.{
  AuditDecision, AuditEventType, AuditStatus, Env, RunRow, ToolCallRow, later,
}
use my_ai_agent_fullstack_tr.Storage.Table.{Table, lookup, put}

-- `class ApprovalRequest` of domain.py
pub record ApprovalRequest : Type 0 where
  pub run_id : ℕ
  pub tool_call_id : ℕ
  pub normalized_args : ℕ
  pub requested_by : Text
  pub allowed_approver_roles : List Text
  pub ttl_seconds : ℕ

-- `_normalized_roles`
abbrev normalized_roles : Env → List Text → List Text
normalized_roles env roles = env.sort (map env.casefold roles)

-- `SELECT * FROM approvals WHERE run_id = ? AND tool_call_id = ?`
unfoldable approval_of_call : ℕ → ℕ → Table ℕ Approval → Option Approval
approval_of_call run_id tool_call_id [] = none
approval_of_call run_id tool_call_id ((k, a) ∷ t) =
    if a.run_id == run_id && a.tool_call_id == tool_call_id
    then some a
    else approval_of_call run_id tool_call_id t

-- Whether the request is the one that was recorded; a time stands for its microseconds.
abbrev same_request : Env → Approval → ApprovalRequest → ℕ → Bool
same_request env a request args_digest =
    a.requested_by == request.requested_by
    && a.canonical_args_digest == args_digest
    && normalized_roles env a.allowed_approver_roles
      == normalized_roles env request.allowed_approver_roles
    && (a.expires_at - a.requested_at) / 1000000 == request.ttl_seconds

-- `_handle_duplicate`
unfoldable pub handle_duplicate : Env → Approval → ApprovalRequest → ℕ → ℕ → Exec Approval
unfolding get_run validate_current_binding
handle_duplicate env a request args_digest now = do
  raise_if (not (approval_is_valid env a)) approval_invalid
  raise_if (not (is_active a.status)) approval_replayed
  raise_if (not (same_request env a request args_digest)) approval_conflict
  raise_if (leb a.expires_at now) approval_replayed
  row ← get_run a.run_id
  raise_if (row.run.status /= RunStatus.waiting_approval) approval_not_executable
  validate_current_binding env a
  pure a

-- The row that `create` inserts, before its binding is hashed.
abbrev pub requested : Env → ApprovalRequest → Run → ToolInvocation → ℕ → Approval
requested env request r i now = record {
  approval_id = env.new_approval_id;
  run_id = r.run_id;
  tool_call_id = request.tool_call_id;
  task_id = r.task_id;
  task_kind = r.task_kind;
  git_root = r.workspace.git_root;
  workspace_root = r.workspace.workspace_root;
  workspace_prefix = r.workspace.workspace_prefix;
  tool_name = i.tool_name;
  canonical_args_digest = i.args_digest;
  binding_digest = 0;
  config_fingerprint = r.config_fingerprint;
  requested_by = request.requested_by;
  allowed_approver_roles = normalized_roles env request.allowed_approver_roles;
  status = ApprovalStatus.pending;
  revision = 0;
  requested_at = now;
  expires_at = now + seconds request.ttl_seconds;
  decided_at = none;
  decided_by = none;
  claimed_at = none;
  execution_intent_id = none;
  consumed_at = none;
  consumption_code = none;
}

abbrev pub bound : Env → Approval → Run → ToolInvocation → Approval
bound env a r i = record a { binding_digest = env.binding_digest (current_binding a r i) }

-- A first request: the row is inserted, and the call refers to it.
unfoldable pub request_new : Env → ApprovalRequest → RunRow → ToolCallRow → ℕ → Exec Approval
unfolding load
request_new env request run_row call token = do
  let now = env.clock 0
  let key : ℕ × ℕ = (request.run_id, request.tool_call_id)
  raise_if (call.invocation.status /= InvocationStatus.prepared) approval_not_executable
  raise_if (run_row.run.status /= RunStatus.running) approval_invalid
  let a =
      bound env (requested env request run_row.run call.invocation now) run_row.run call.invocation
  taken ← gets (λ db. lookup a.approval_id db.approvals)
  raise_if (is_some taken || leb a.expires_at a.requested_at) approval_conflict
  modify (λ db. record db { approvals = put a.approval_id a db.approvals })
  raise_if (is_some call.invocation.approval_id) approval_conflict
  modify (λ db. record db {
    tool_calls =
        put key
          (record {
            invocation = record call.invocation {
              approval_id = some a.approval_id;
              updated_at = now;
            };
            revision = call.revision + 1;
          })
          db.tool_calls;
  })
  append_event (later 1 env) (
      approval_event a AuditEventType.approval_requested AuditStatus.pending
        AuditDecision.not_applicable (some (StableCode.error approval_required)))
  load (later 2 env) a.approval_id token

-- The branch of `create` on the row of the call's approval.
unfoldable pub resolve_request :
    Env → ApprovalRequest → RunRow → ToolCallRow → ℕ → ℕ → Option Approval → Exec Approval
unfolding handle_duplicate request_new
resolve_request env request run_row call args_digest token none =
    request_new env request run_row call token
resolve_request env request run_row call args_digest token (some a) =
    handle_duplicate env a request args_digest (env.clock 0)

-- `ApprovalStore.create`
unfoldable pub create : Env → ApprovalRequest → ℕ → Exec Approval
unfolding verify_lease get_run approval_of_call resolve_request
create env request token = do
  raise_if (request.requested_by /= env.actor) approval_invalid
  verify_lease env request.run_id token (env.clock 0)
  run_row ← get_run request.run_id
  call ←
      or_raise (← gets (λ db. lookup (request.run_id, request.tool_call_id) db.tool_calls))
        approval_not_found
  let args_digest = env.args_digest call.invocation.tool_name request.normalized_args
  raise_if (args_digest /= call.invocation.args_digest) approval_binding_mismatch
  existing ← gets (λ db. approval_of_call request.run_id request.tool_call_id db.approvals)
  resolve_request env request run_row call args_digest token existing
