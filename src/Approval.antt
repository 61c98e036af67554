-- ===== src/Approval.antt =====
-- The approvals of week03_guarded-harness/src/guarded_harness/approval.py: reads, the guarded UPDATE,
-- the binding, and the expiry that every access materializes.
pub mod Expiry
pub mod Create
pub mod Decide
pub mod Decision
pub mod Execution
pub mod Consumption
pub mod Invalidation
pub mod Diagram
pub mod Commands
pub mod Once
pub mod Due
pub mod Rejection
pub mod Claim
use my_ai_agent_fullstack_tr.Base.{
  Bool, List, Option, [], contains, false, if◌then◌else◌, leb, length, list_eq, ltb, map, nat_eq,
  not, option_eq, pair_eq, some, true, ℕ, ◌&&◌, ◌+◌, ◌/=◌, ◌==◌, ◌||◌, ◌∷◌,
}
use my_ai_agent_fullstack_tr.Domain.ErrorCode.{
  ErrorCode, approval_binding_mismatch, approval_conflict, approval_expired, approval_invalid,
  approval_not_found,
}
use my_ai_agent_fullstack_tr.Domain.Models.{
  Approval, Run, StableCode, Text, ToolInvocation, approval_fields_fit, approval_times_fit,
}
use my_ai_agent_fullstack_tr.Domain.Status.{
  AcceptanceStatus, ApprovalStatus, GatePhase, RunStatus, StopReason, acceptance_status_eq,
  approval_status_eq, run_status_eq, stop_reason_eq,
}
use my_ai_agent_fullstack_tr.State.Access.{append_event, event, get_run, verify_lease}
use my_ai_agent_fullstack_tr.State.Runs.{RunTransition, transition_run}
use my_ai_agent_fullstack_tr.Storage.Exec.{
  Exec, constrained, gets, modify, or_raise, pure, raise_if, ◌>>=◌, ◌>>◌,
}
use my_ai_agent_fullstack_tr.Storage.Rows.{
  AuditDecision, AuditEventDraft, AuditEventType, AuditStatus, Binding, Env, RuleId, later,
}
use my_ai_agent_fullstack_tr.Storage.Table.{lookup, put}

-- `Approval.model_post_init` on the roles: none is empty or padded, and no two are the same up to case.
abbrev no_duplicates : List Text → Bool
no_duplicates [] = true
no_duplicates (r ∷ rs) = not (contains r rs) && no_duplicates rs

abbrev trimmed : Env → List Text → Bool
trimmed env [] = true
trimmed env (r ∷ rs) = not (r == []) && r == env.strip r && trimmed env rs

abbrev roles_fit : Env → List Text → Bool
roles_fit env roles = trimmed env roles && no_duplicates (map env.casefold roles)

-- Whether `approval_from_row` raises nothing.
unfoldable pub approval_is_valid : Env → Approval → Bool
approval_is_valid env a =
    roles_fit env a.allowed_approver_roles && approval_fields_fit a && approval_times_fit a

-- `_required_approval`
unfoldable pub required_approval : Env → ℕ → Exec Approval
required_approval env approval_id = do
  row ← or_raise (← gets (λ db. lookup approval_id db.approvals)) approval_not_found
  raise_if (not (approval_is_valid env row)) approval_invalid
  pure row

-- An UPDATE of one approval: the row must be there and fit the WHERE clause, or `code` is raised. The
-- table has the constraint that `updated_at` does not precede `created_at`, which is `requested_at`.
unfoldable pub update_approval :
    ℕ → (Approval → Bool) → ErrorCode → ℕ → (Approval → Approval) → Exec (Unit {0})
update_approval approval_id fits code now f = do
  row ← or_raise (← gets (λ db. lookup approval_id db.approvals)) code
  raise_if (not (fits row)) code
  constrained (leb row.requested_at now)
  modify (λ db. record db {
    approvals = put approval_id (record (f row) { revision = row.revision + 1 }) db.approvals;
  })

-- `_append_event` of an approval
abbrev pub approval_event :
    Approval → AuditEventType → AuditStatus → AuditDecision → Option StableCode → AuditEventDraft
approval_event a event_type status decision code = record (event a.run_id event_type status) {
  phase = GatePhase.approval;
  decision = decision;
  code = code;
  tool_call_id = some a.tool_call_id;
  approval_id = some a.approval_id;
  tool_name = some a.tool_name;
  rule_id = some RuleId.approval_binding_v1;
}

abbrev pub is_active : ApprovalStatus → Bool
is_active ApprovalStatus.pending = true
is_active ApprovalStatus.approved = true
is_active _ = false

-- `_stable_code`: the code is given, has at most 128 characters, and each is upper-case, a digit or `_`.
abbrev stable_characters : Env → Text → Bool
stable_characters env [] = true
stable_characters env (x ∷ xs) =
    (env.is_upper x || env.is_digit x || x == 95) && stable_characters env xs

unfoldable pub stable_code : Env → Option Text → Exec Text
stable_code env value = do
  v ← or_raise value approval_invalid
  raise_if (v == [] || ltb 128 (length v)) approval_invalid
  raise_if (not (stable_characters env v)) approval_invalid
  pure v

-- What `_validate_current_binding` hashes: the context as it is now.
abbrev pub current_binding : Approval → Run → ToolInvocation → Binding
current_binding a r i = record {
  run_id = r.run_id;
  tool_call_id = a.tool_call_id;
  task_id = r.task_id;
  task_kind = r.task_kind;
  git_root = r.workspace.git_root;
  workspace_root = r.workspace.workspace_root;
  workspace_prefix = r.workspace.workspace_prefix;
  tool_name = i.tool_name;
  canonical_args_digest = i.args_digest;
  config_fingerprint = r.config_fingerprint;
  requested_by = a.requested_by;
  allowed_approver_roles = a.allowed_approver_roles;
  requested_at = a.requested_at;
  expires_at = a.expires_at;
}

-- `_validate_current_binding`
unfoldable pub validate_current_binding : Env → Approval → Exec (Unit {0})
unfolding get_run
validate_current_binding env a = do
  run_row ← get_run a.run_id
  call ←
      or_raise (← gets (λ db. lookup (a.run_id, a.tool_call_id) db.tool_calls))
        approval_binding_mismatch
  raise_if
      (env.binding_digest (current_binding a run_row.run call.invocation) /= a.binding_digest
        || call.invocation.tool_name /= a.tool_name
        || call.invocation.args_digest /= a.canonical_args_digest
        || call.invocation.approval_id /= some a.approval_id)
      approval_binding_mismatch

-- The run of an approval that ends without being granted stops, as of `now`.
abbrev pub stop_waiting : StopReason → ℕ → ℕ → RunTransition
stop_waiting reason now revision = record {
  expected_status = RunStatus.waiting_approval;
  expected_revision = revision;
  target = RunStatus.stopped;
  stop_reason = some reason;
  ended_at = some now;
  acceptance_status = some AcceptanceStatus.not_evaluated;
}

abbrev pub when : Bool → Exec Run → Exec (Unit {0})
when true m = do m; pure tt
when false m = pure tt

-- The run of an expired approval is stopped if it waits.
unfoldable stop_expired : Env → Approval → ℕ → ℕ → Exec (Unit {0})
unfolding get_run transition_run
stop_expired env a now token = do
  row ← get_run a.run_id
  when (row.run.status == RunStatus.waiting_approval) (
      transition_run env a.run_id (stop_waiting StopReason.approval_expired now row.revision) token)

-- `_expire` of an active approval. Its UPDATE finds the row that was read before in the same
-- transaction, so the branch for a row that another writer changed is left out.
unfoldable pub expire : Env → Approval → ℕ → ℕ → Exec Approval
unfolding update_approval required_approval stop_expired
expire env a now token = do
  update_approval a.approval_id
      (λ r. r.status == a.status && r.revision == a.revision && leb r.expires_at now)
      approval_conflict now (λ r. record r { status = ApprovalStatus.expired })
  append_event env
      (record (approval_event a AuditEventType.approval_expired AuditStatus.denied
        AuditDecision.deny (some (StableCode.error approval_expired))) {
          rule_id = some RuleId.approval_ttl;
        })
  stop_expired (later 1 env) a now token
  required_approval env a.approval_id

-- `_materialize_expiry`
unfoldable pub materialize_expiry : Env → Approval → ℕ → Exec Approval
unfolding expire
materialize_expiry env a token =
    if is_active a.status && leb a.expires_at (env.clock 0)
    then expire (later 1 env) a (env.clock 0) token
    else pure a

-- `ApprovalStore.load`
unfoldable pub load : Env → ℕ → ℕ → Exec Approval
unfolding verify_lease required_approval materialize_expiry
load env approval_id token = do
  row ← or_raise (← gets (λ db. lookup approval_id db.approvals)) approval_not_found
  verify_lease env row.run_id token (env.clock 0)
  a ← required_approval env approval_id
  materialize_expiry (later 1 env) a token
