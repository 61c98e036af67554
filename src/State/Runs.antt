-- ===== src/State/Runs.antt =====
-- Runs and their lifecycle (state_store.py).
pub mod Diagram
pub mod Outcome
pub mod Persisted
use my_ai_agent_fullstack_tr.Base.{
  Bool, List, Option, [], contains, false, if◌then◌else◌, is_some, list_eq, nat_eq, none, not,
  option_eq, or_else, pair_eq, some, true, ℕ, ◌&&◌, ◌/=◌, ◌==◌, ◌||◌, ◌∷◌,
}
use my_ai_agent_fullstack_tr.Domain.ErrorCode.{
  state_conflict, state_invalid_transition, state_invariant_violation,
}
use my_ai_agent_fullstack_tr.Domain.Models.{Run, StableCode, Text, run_is_valid, stop}
use my_ai_agent_fullstack_tr.Domain.Status.{
  AcceptanceStatus, RunStatus, StopReason, acceptance_status_eq, run_status_eq, stop_reason_eq,
}
use my_ai_agent_fullstack_tr.State.Access.{append_event, event, get_run, update_run, verify_lease}
use my_ai_agent_fullstack_tr.State.Lease.{LeasePolicy, RunLease, acquire_in_run}
use my_ai_agent_fullstack_tr.Storage.Exec.{
  Exec, gets, modify, pure, raise_if, validated, ◌>>=◌, ◌>>◌,
}
use my_ai_agent_fullstack_tr.Storage.Rows.{AuditEventType, AuditStatus, Env, RunRow, later}
use my_ai_agent_fullstack_tr.Storage.Table.{Table, lookup, put}

-- `_RUN_TRANSITIONS`
unfoldable pub run_transitions : RunStatus → List RunStatus
run_transitions RunStatus.new = RunStatus.running ∷ []
run_transitions RunStatus.running =
    RunStatus.waiting_approval ∷ RunStatus.verifying ∷ RunStatus.stopped ∷ RunStatus.failed
    ∷ RunStatus.blocked ∷ []
run_transitions RunStatus.waiting_approval =
    RunStatus.running ∷ RunStatus.stopped ∷ RunStatus.failed ∷ RunStatus.blocked ∷ []
run_transitions RunStatus.verifying =
    RunStatus.completed ∷ RunStatus.failed ∷ RunStatus.blocked ∷ []
run_transitions _ = []

-- `_TERMINAL_RUN_STATUSES`
abbrev pub is_terminal : RunStatus → Bool
is_terminal RunStatus.completed = true
is_terminal RunStatus.stopped = true
is_terminal RunStatus.failed = true
is_terminal RunStatus.blocked = true
is_terminal _ = false

-- `_TERMINAL_ACCEPTANCE`
abbrev pub is_evaluated : AcceptanceStatus → Bool
is_evaluated AcceptanceStatus.not_evaluated = false
is_evaluated _ = true

-- The terminal statuses that carry a stop reason.
abbrev pub needs_reason : RunStatus → Bool
needs_reason RunStatus.stopped = true
needs_reason RunStatus.failed = true
needs_reason RunStatus.blocked = true
needs_reason _ = false

-- The arguments of `transition_run` behind the run's identifier.
pub record RunTransition : Type 0 where
  pub expected_status : RunStatus
  pub expected_revision : ℕ
  pub target : RunStatus
  pub stop_reason : Option StopReason
  pub ended_at : Option ℕ
  pub acceptance_status : Option AcceptanceStatus

-- `event_type` and `audit_status` of `transition_run`. `NEW` is the target of no transition.
abbrev run_event : RunStatus → AuditEventType
run_event RunStatus.new = AuditEventType.run_created
run_event RunStatus.running = AuditEventType.run_started
run_event RunStatus.waiting_approval = AuditEventType.run_waiting_approval
run_event RunStatus.verifying = AuditEventType.run_verifying
run_event RunStatus.completed = AuditEventType.run_completed
run_event RunStatus.stopped = AuditEventType.run_stopped
run_event RunStatus.failed = AuditEventType.run_failed
run_event RunStatus.blocked = AuditEventType.run_blocked

abbrev run_audit_status : RunStatus → AuditStatus
run_audit_status RunStatus.new = AuditStatus.succeeded
run_audit_status RunStatus.running = AuditStatus.started
run_audit_status RunStatus.waiting_approval = AuditStatus.pending
run_audit_status RunStatus.verifying = AuditStatus.started
run_audit_status RunStatus.completed = AuditStatus.succeeded
run_audit_status RunStatus.stopped = AuditStatus.stopped
run_audit_status RunStatus.failed = AuditStatus.failed
run_audit_status RunStatus.blocked = AuditStatus.blocked

abbrev run_event_code : RunStatus → Option StopReason → Option StableCode
run_event_code RunStatus.failed (some r) = some (stop r)
run_event_code RunStatus.blocked (some r) = some (stop r)
run_event_code _ _ = none

-- The acceptance status that the run gets.
unfoldable pub acceptance_after : RunTransition → AcceptanceStatus → AcceptanceStatus
acceptance_after t current =
    if t.stop_reason == some StopReason.budget_exhausted
    then AcceptanceStatus.not_evaluated
    else or_else t.acceptance_status current

-- The model that `transition_run` validates and returns.
unfoldable pub updated_run : Run → RunTransition → ℕ → Run
unfolding acceptance_after
updated_run current t now = record current {
  status = t.target;
  stop_reason = t.stop_reason;
  acceptance_status = acceptance_after t current.acceptance_status;
  ended_at = if is_terminal t.target then some (or_else t.ended_at now) else t.ended_at;
  updated_at = now;
  started_at =
      if t.target == RunStatus.running && not (is_some current.started_at)
      then some now
      else current.started_at;
}

-- The columns that its UPDATE sets: `started_at` is not among them.
unfoldable pub stored_run : Run → Run → Run
stored_run updated r = record r {
  status = updated.status;
  stop_reason = updated.stop_reason;
  acceptance_status = updated.acceptance_status;
  ended_at = updated.ended_at;
  updated_at = updated.updated_at;
}

-- The checks of `transition_run` in the order of the code.
check_run_transition : RunRow → RunTransition → Exec (Unit {0})
unfolding run_transitions acceptance_after
check_run_transition row t = do
  raise_if (row.revision /= t.expected_revision || row.run.status /= t.expected_status)
      state_conflict
  raise_if (not (contains t.target (run_transitions row.run.status))) state_invalid_transition
  raise_if (not (is_terminal t.target) && is_some t.ended_at) state_invariant_violation
  raise_if (needs_reason t.target && not (is_some t.stop_reason)) state_invariant_violation
  raise_if (not (needs_reason t.target) && is_some t.stop_reason) state_invariant_violation
  raise_if
      (t.target == RunStatus.completed
        && not (is_evaluated (acceptance_after t row.run.acceptance_status)))
      state_invariant_violation

-- `StateStore.transition_run`
unfoldable pub transition_run : Env → ℕ → RunTransition → ℕ → Exec Run
unfolding verify_lease get_run check_run_transition updated_run stored_run update_run
transition_run env run_id t token = do
  let now = env.clock 0
  verify_lease env run_id token now
  row ← get_run run_id
  check_run_transition row t
  let updated = updated_run row.run t now
  validated (run_is_valid updated)
  update_run run_id row.revision (stored_run updated)
  append_event (later 1 env)
      (record (event run_id (run_event t.target) (run_audit_status t.target)) {
        code = run_event_code t.target t.stop_reason;
      })
  pure updated

has_trace : ℕ → Table ℕ RunRow → Bool
has_trace trace_id [] = false
has_trace trace_id ((k, row) ∷ t) = row.run.trace_id == trace_id || has_trace trace_id t

-- `StateStore.create_run`
unfoldable create_run : Env → Run → Text → LeasePolicy → Exec RunLease
unfolding has_trace acquire_in_run
create_run env run owner_id policy = do
  raise_if (run.status /= RunStatus.new) state_invariant_violation
  runs ← gets (λ db. db.runs)
  raise_if (is_some (lookup run.run_id runs) || has_trace run.trace_id runs) state_conflict
  modify (λ db. record db { runs = put run.run_id (record { run = run; revision = 0 }) db.runs })
  append_event env (event run.run_id AuditEventType.run_created AuditStatus.succeeded)
  acquire_in_run (later 1 env) run.run_id owner_id policy
