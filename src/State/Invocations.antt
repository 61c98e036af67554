-- ===== src/State/Invocations.antt =====
-- The tool invocations of a run (state_store.py).
pub mod Outcome
pub mod Lifecycle
pub mod Sequence
use my_ai_agent_fullstack_tr.Base.{
  Bool, Option, [], false, is_some, list_eq, nat_eq, none, not, option_eq, pair_eq, some, true, ℕ,
  ◌&&◌, ◌+◌, ◌/=◌, ◌==◌, ◌||◌,
}
use my_ai_agent_fullstack_tr.Domain.ErrorCode.{
  state_conflict, state_invalid_transition, state_invariant_violation, state_not_found,
}
use my_ai_agent_fullstack_tr.Domain.Models.{
  StableCode, Text, ToolInvocation, invocation_is_valid, is_truthy, text,
}
use my_ai_agent_fullstack_tr.Domain.Status.{InvocationStatus, invocation_status_eq}
use my_ai_agent_fullstack_tr.State.Access.{append_event, event, get_run, touch_run, verify_lease}
use my_ai_agent_fullstack_tr.State.Runs.{is_terminal}
use my_ai_agent_fullstack_tr.Storage.Exec.{
  Exec, gets, modify, or_raise, pure, raise_if, validated, ◌>>=◌, ◌>>◌,
}
use my_ai_agent_fullstack_tr.Storage.Rows.{AuditEventType, AuditStatus, Env, ToolCallRow, later}
use my_ai_agent_fullstack_tr.Storage.Table.{lookup, put}

-- `StateStore.create_invocation`
unfoldable pub create_invocation : Env → ToolInvocation → ℕ → ℕ → Exec ToolInvocation
unfolding verify_lease get_run touch_run
create_invocation env invocation expected_run_revision token = do
  let now = env.clock 0
  verify_lease env invocation.run_id token now
  row ← get_run invocation.run_id
  raise_if (row.revision /= expected_run_revision) state_conflict
  raise_if (is_terminal row.run.status) state_invalid_transition
  raise_if (invocation.status /= InvocationStatus.prepared || invocation.evidence_ids /= [])
      state_invariant_violation
  step_row ← or_raise (← gets (λ db. lookup invocation.step_id db.steps)) state_not_found
  raise_if (step_row.step.run_id /= invocation.run_id) state_not_found
  let key : ℕ × ℕ = (invocation.run_id, invocation.tool_call_id)
  existing ← gets (λ db. lookup key db.tool_calls)
  raise_if (is_some existing) state_conflict
  modify (λ db. record db {
    tool_calls = put key (record { invocation = invocation; revision = 0 }) db.tool_calls;
  })
  touch_run invocation.run_id expected_run_revision now none
  append_event (later 1 env)
      (record (event invocation.run_id AuditEventType.tool_prepared AuditStatus.pending) {
        step_id = some invocation.step_id;
        tool_call_id = some invocation.tool_call_id;
        tool_name = some invocation.tool_name;
      })
  pure invocation

-- The arguments of `transition_invocation` behind the two identifiers.
pub record InvocationTransition : Type 0 where
  pub expected_status : InvocationStatus
  pub expected_revision : ℕ
  pub target : InvocationStatus
  pub result_summary : Option Text
  pub error_code : Option StableCode

-- The result of an invocation that has started.
abbrev pub is_result : InvocationStatus → Bool
is_result InvocationStatus.prepared = false
is_result InvocationStatus.started = false
is_result _ = true

-- `FAILED`, `TIMED_OUT` and `UNKNOWN_RESULT`
abbrev pub is_failure : InvocationStatus → Bool
is_failure InvocationStatus.failed = true
is_failure InvocationStatus.timed_out = true
is_failure InvocationStatus.unknown_result = true
is_failure _ = false

-- `event_type` and `audit_status` of `transition_invocation`. `PREPARED` is the target of no
-- transition.
abbrev invocation_event : InvocationStatus → AuditEventType
invocation_event InvocationStatus.prepared = AuditEventType.tool_prepared
invocation_event InvocationStatus.started = AuditEventType.tool_started
invocation_event InvocationStatus.succeeded = AuditEventType.tool_succeeded
invocation_event InvocationStatus.failed = AuditEventType.tool_failed
invocation_event InvocationStatus.timed_out = AuditEventType.tool_timed_out
invocation_event InvocationStatus.unknown_result = AuditEventType.tool_unknown_result

abbrev invocation_audit_status : InvocationStatus → AuditStatus
invocation_audit_status InvocationStatus.prepared = AuditStatus.pending
invocation_audit_status InvocationStatus.started = AuditStatus.started
invocation_audit_status InvocationStatus.succeeded = AuditStatus.succeeded
invocation_audit_status InvocationStatus.failed = AuditStatus.failed
invocation_audit_status InvocationStatus.timed_out = AuditStatus.timed_out
invocation_audit_status InvocationStatus.unknown_result = AuditStatus.unknown_result

-- The checks of `transition_invocation` in the order of the code.
unfoldable pub check_invocation : ToolCallRow → InvocationTransition → Exec (Unit {0})
check_invocation row t = do
  let current = row.invocation.status
  raise_if (row.revision /= t.expected_revision || current /= t.expected_status) state_conflict
  raise_if (current == InvocationStatus.prepared && t.target /= InvocationStatus.started)
      state_invalid_transition
  raise_if (current == InvocationStatus.started && not (is_result t.target))
      state_invalid_transition
  raise_if (current /= InvocationStatus.prepared && current /= InvocationStatus.started)
      state_invalid_transition
  raise_if (t.target == InvocationStatus.timed_out && not row.invocation.idempotent)
      state_invariant_violation
  raise_if (t.target == InvocationStatus.succeeded && is_some t.error_code)
      state_invariant_violation
  raise_if (is_failure t.target && not (is_truthy t.error_code)) state_invariant_violation

-- What `_invocation_from_row` reads back of an optional text: the empty one is `None`.
abbrev pub read_summary : Option Text → Option Text
read_summary (some []) = none
read_summary v = v

abbrev pub read_code : Option StableCode → Option StableCode
read_code (some (text [])) = none
read_code v = v

-- The columns that its UPDATE sets, as they are read back.
unfoldable pub updated_invocation : ToolInvocation → InvocationTransition → ℕ → ToolInvocation
updated_invocation current t now = record current {
  status = t.target;
  result_summary = read_summary t.result_summary;
  error_code = read_code t.error_code;
  updated_at = now;
}

-- `StateStore.transition_invocation`
unfoldable pub transition_invocation : Env → ℕ → ℕ → InvocationTransition → ℕ → Exec ToolInvocation
unfolding verify_lease check_invocation updated_invocation touch_run
transition_invocation env run_id tool_call_id t token = do
  let now = env.clock 0
  verify_lease env run_id token now
  row ← or_raise (← gets (λ db. lookup (run_id, tool_call_id) db.tool_calls)) state_not_found
  validated (invocation_is_valid row.invocation)
  check_invocation row t
  let updated = updated_invocation row.invocation t now
  modify (λ db. record db {
    tool_calls =
        put (run_id, tool_call_id) (record { invocation = updated; revision = row.revision + 1 })
          db.tool_calls;
  })
  run_row ← or_raise (← gets (λ db. lookup run_id db.runs)) state_not_found
  touch_run run_id run_row.revision now none
  validated (invocation_is_valid updated)
  append_event (later 1 env)
      (record (event run_id (invocation_event t.target) (invocation_audit_status t.target)) {
        code = t.error_code;
        tool_call_id = some tool_call_id;
        tool_name = some row.invocation.tool_name;
      })
  pure updated
