-- ===== src/Approval/Claim.antt =====
-- The execution of an approved call (approval.py): the claim, its recovery, the consumption, and the
-- invalidation.
use my_ai_agent_fullstack_tr.Base.{
  Bool, Option, false, if◌then◌else◌, leb, list_eq, ltb, nat_eq, none, not, option_eq, pair_eq,
  some, true, ℕ, ◌&&◌, ◌/=◌, ◌==◌, ◌||◌,
}
use my_ai_agent_fullstack_tr.Approval.{
  approval_event, is_active, materialize_expiry, required_approval, stable_code, update_approval,
  validate_current_binding,
}
use my_ai_agent_fullstack_tr.Domain.ErrorCode.{
  approval_already_claimed, approval_binding_mismatch, approval_conflict, approval_expired,
  approval_not_executable,
}
use my_ai_agent_fullstack_tr.Domain.Models.{Approval, StableCode, Text, text}
use my_ai_agent_fullstack_tr.Domain.Status.{
  ApprovalStatus, InvocationStatus, RunStatus, approval_status_eq, invocation_status_eq,
  run_status_eq,
}
use my_ai_agent_fullstack_tr.State.Access.{append_event, get_run, verify_lease}
use my_ai_agent_fullstack_tr.Storage.Exec.{Exec, gets, or_raise, pure, raise_if, ◌>>=◌, ◌>>◌}
use my_ai_agent_fullstack_tr.Storage.Rows.{
  AuditDecision, AuditEventType, AuditStatus, Env, ToolCallRow, later,
}
use my_ai_agent_fullstack_tr.Storage.Table.{lookup}

-- `ApprovalStore.claim`
unfoldable pub claim : Env → ℕ → ℕ → ℕ → ℕ → Exec Approval
unfolding verify_lease required_approval materialize_expiry get_run validate_current_binding
    update_approval
claim env approval_id expected_revision execution_intent_id token = do
  let now = env.clock 0
  row ← required_approval env approval_id
  verify_lease env row.run_id token now
  a ← materialize_expiry (later 1 env) row token
  raise_if (a.status == ApprovalStatus.expired) approval_expired
  raise_if (a.status == ApprovalStatus.claimed) approval_already_claimed
  raise_if (a.revision /= expected_revision) approval_conflict
  raise_if (a.status /= ApprovalStatus.approved) approval_not_executable
  raise_if (leb a.expires_at now) approval_expired
  raise_if (execution_intent_id /= a.tool_call_id) approval_binding_mismatch
  run_row ← get_run a.run_id
  raise_if (run_row.run.status /= RunStatus.waiting_approval) approval_not_executable
  validate_current_binding env a
  update_approval approval_id
      (λ r.
        r.status == ApprovalStatus.approved
        && r.revision == expected_revision
        && ltb now r.expires_at)
      approval_already_claimed now
      (λ r. record r {
        status = ApprovalStatus.claimed;
        claimed_at = some now;
        execution_intent_id = some execution_intent_id;
      })
  append_event (later 2 env) (
      approval_event a AuditEventType.approval_claimed AuditStatus.started
        AuditDecision.not_applicable none)
  required_approval env approval_id

-- `ApprovalStore.resume_claim`
unfoldable pub resume_claim : Env → ℕ → ℕ → ℕ → ℕ → Exec Approval
unfolding verify_lease required_approval get_run validate_current_binding
resume_claim env approval_id expected_revision execution_intent_id token = do
  a ← required_approval env approval_id
  verify_lease env a.run_id token (env.clock 0)
  validate_current_binding env a
  raise_if (a.revision /= expected_revision) approval_conflict
  raise_if
      (a.status /= ApprovalStatus.claimed
        || a.execution_intent_id /= some execution_intent_id
        || execution_intent_id /= a.tool_call_id)
      approval_not_executable
  run_row ← get_run a.run_id
  raise_if (run_row.run.status /= RunStatus.running) approval_not_executable
  call ←
      or_raise (← gets (λ db. lookup (a.run_id, a.tool_call_id) db.tool_calls))
        approval_not_executable
  raise_if (call.invocation.status /= InvocationStatus.prepared) approval_not_executable
  append_event (later 1 env) (
      approval_event a AuditEventType.approval_claim_recovered AuditStatus.started
        AuditDecision.not_applicable none)
  pure a

-- `_DETERMINISTIC_RESULT_STATUSES`
abbrev pub is_deterministic : InvocationStatus → Bool
is_deterministic InvocationStatus.succeeded = true
is_deterministic InvocationStatus.failed = true
is_deterministic InvocationStatus.timed_out = true
is_deterministic _ = false

-- `_optional_stable_code`
unfoldable pub optional_stable_code : Env → Option Text → Exec (Option StableCode)
unfolding stable_code
optional_stable_code env none = pure none
optional_stable_code env (some v) = do w ← stable_code env (some v); pure (some (text w))

-- The checks of `consume`, up to the code.
unfoldable pub check_consumption : Approval → ℕ → ℕ → InvocationStatus → Exec (Unit {0})
unfolding get_run
check_consumption a expected_revision execution_intent_id result_status = do
  raise_if (a.revision /= expected_revision) approval_conflict
  raise_if
      (a.status /= ApprovalStatus.claimed
        || a.execution_intent_id /= some execution_intent_id
        || execution_intent_id /= a.tool_call_id)
      approval_not_executable
  run_row ← get_run a.run_id
  raise_if (run_row.run.status /= RunStatus.running) approval_not_executable
  raise_if (not (is_deterministic result_status)) approval_not_executable
  call ←
      or_raise (← gets (λ db. lookup (a.run_id, a.tool_call_id) db.tool_calls))
        approval_not_executable
  raise_if (call.invocation.status /= result_status) approval_not_executable

-- `ApprovalStore.consume`
unfoldable pub consume : Env → ℕ → ℕ → ℕ → InvocationStatus → Option Text → ℕ → Exec Approval
unfolding verify_lease required_approval check_consumption update_approval optional_stable_code
consume env approval_id expected_revision execution_intent_id result_status result_code token = do
  let now = env.clock 0
  a ← required_approval env approval_id
  verify_lease env a.run_id token now
  check_consumption a expected_revision execution_intent_id result_status
  code ← optional_stable_code env result_code
  update_approval approval_id
      (λ r.
        r.status == ApprovalStatus.claimed
        && r.revision == expected_revision
        && r.execution_intent_id == some execution_intent_id)
      approval_conflict now
      (λ r. record r {
        status = ApprovalStatus.consumed;
        consumed_at = some now;
        consumption_code = code;
      })
  append_event (later 1 env) (
      approval_event a AuditEventType.approval_consumed AuditStatus.succeeded
        AuditDecision.not_applicable code)
  required_approval env approval_id

abbrev pub is_prepared : Option ToolCallRow → Bool
is_prepared none = false
is_prepared (some call) = call.invocation.status == InvocationStatus.prepared

-- The check of `invalidate` by the status: a claimed approval whose call has not started, or an active
-- one.
unfoldable pub check_invalidation : Approval → Exec (Unit {0})
check_invalidation a = do
  call ← gets (λ db. lookup (a.run_id, a.tool_call_id) db.tool_calls)
  raise_if
      (if a.status == ApprovalStatus.claimed
        then not (is_prepared call)
        else not (is_active a.status))
      approval_not_executable

-- `ApprovalStore.invalidate`
unfoldable pub invalidate : Env → ℕ → ℕ → Option Text → ℕ → Exec Approval
unfolding verify_lease required_approval materialize_expiry check_invalidation stable_code
    update_approval
invalidate env approval_id expected_revision reason_code token = do
  let now = env.clock 0
  row ← required_approval env approval_id
  verify_lease env row.run_id token now
  a ← materialize_expiry (later 1 env) row token
  raise_if (a.revision /= expected_revision) approval_conflict
  check_invalidation a
  reason ← stable_code env reason_code
  update_approval approval_id (λ r. r.status == a.status && r.revision == expected_revision)
      approval_conflict now
      (λ r. record r {
        status = ApprovalStatus.invalidated;
        claimed_at = none;
        execution_intent_id = none;
        consumed_at = none;
        consumption_code = none;
      })
  append_event (later (if is_active a.status then 2 else 1) env) (
      approval_event a AuditEventType.approval_invalidated AuditStatus.denied AuditDecision.deny
        (some (text reason)))
  required_approval env approval_id
