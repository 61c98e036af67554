-- ===== src/State/Steps.antt =====
-- The steps of a run (state_store.py).
pub mod Outcome
pub mod Lifecycle
pub mod Sequence
use my_ai_agent_fullstack_tr.Base.{
  Bool, List, Option, [], contains, false, if◌then◌else◌, is_some, list_eq, nat_eq, none, not,
  option_eq, or_else, pair_eq, some, true, ℕ, ◌&&◌, ◌+◌, ◌/=◌, ◌==◌, ◌||◌, ◌∷◌,
}
use my_ai_agent_fullstack_tr.Domain.ErrorCode.{
  state_conflict, state_invalid_transition, state_invariant_violation, state_not_found,
}
use my_ai_agent_fullstack_tr.Domain.Models.{StableCode, Step, is_truthy, step_is_valid}
use my_ai_agent_fullstack_tr.Domain.Status.{StepStatus, step_status_eq}
use my_ai_agent_fullstack_tr.State.Access.{append_event, event, get_run, touch_run, verify_lease}
use my_ai_agent_fullstack_tr.State.Runs.{is_terminal}
use my_ai_agent_fullstack_tr.Storage.Exec.{
  Exec, gets, modify, or_raise, pure, raise_if, validated, ◌>>=◌, ◌>>◌,
}
use my_ai_agent_fullstack_tr.Storage.Rows.{AuditEventType, AuditStatus, Env, StepRow, later}
use my_ai_agent_fullstack_tr.Storage.Table.{Table, lookup, put}

-- `_STEP_TRANSITIONS`
unfoldable pub step_transitions : StepStatus → List StepStatus
step_transitions StepStatus.planned = StepStatus.running ∷ []
step_transitions StepStatus.running = StepStatus.completed ∷ StepStatus.failed ∷ []
step_transitions _ = []

-- A step of the run that has the ordinal.
has_ordinal : ℕ → ℕ → Table ℕ StepRow → Bool
has_ordinal run_id ordinal [] = false
has_ordinal run_id ordinal ((k, row) ∷ t) =
    row.step.run_id == run_id && row.step.ordinal == ordinal || has_ordinal run_id ordinal t

-- `StateStore.create_step`
unfoldable pub create_step : Env → Step → ℕ → ℕ → Exec Step
unfolding verify_lease get_run has_ordinal touch_run
create_step env step expected_run_revision token = do
  let now = env.clock 0
  verify_lease env step.run_id token now
  row ← get_run step.run_id
  raise_if (row.revision /= expected_run_revision) state_conflict
  raise_if (is_terminal row.run.status) state_invalid_transition
  raise_if (step.status /= StepStatus.planned || is_some step.ended_at) state_invariant_violation
  steps ← gets (λ db. db.steps)
  raise_if (is_some (lookup step.step_id steps) || has_ordinal step.run_id step.ordinal steps)
      state_conflict
  modify
      (λ db. record db { steps = put step.step_id (record { step = step; revision = 0 }) db.steps })
  touch_run step.run_id expected_run_revision now (some step.step_id)
  append_event (later 1 env)
      (record (event step.run_id AuditEventType.step_planned AuditStatus.pending) {
        step_id = some step.step_id;
      })
  pure step

-- The arguments of `transition_step` behind the step's identifier.
pub record StepTransition : Type 0 where
  pub expected_status : StepStatus
  pub expected_revision : ℕ
  pub target : StepStatus
  pub ended_at : Option ℕ
  pub error_code : Option StableCode

abbrev pub ends_step : StepStatus → Bool
ends_step StepStatus.completed = true
ends_step StepStatus.failed = true
ends_step _ = false

-- `event_type` and `audit_status` of `transition_step`. `PLANNED` is the target of no transition.
abbrev step_event : StepStatus → AuditEventType
step_event StepStatus.planned = AuditEventType.step_planned
step_event StepStatus.running = AuditEventType.step_started
step_event StepStatus.completed = AuditEventType.step_completed
step_event StepStatus.failed = AuditEventType.step_failed

abbrev step_audit_status : StepStatus → AuditStatus
step_audit_status StepStatus.planned = AuditStatus.pending
step_audit_status StepStatus.running = AuditStatus.started
step_audit_status StepStatus.completed = AuditStatus.succeeded
step_audit_status StepStatus.failed = AuditStatus.failed

-- The step that `transition_step` builds.
unfoldable pub updated_step : Step → StepTransition → ℕ → Step
updated_step current t now = record current {
  status = t.target;
  ended_at = if ends_step t.target then some (or_else t.ended_at now) else t.ended_at;
}

-- The checks of `transition_step`.
check_step : StepRow → StepTransition → Exec (Unit {0})
unfolding step_transitions
check_step row t = do
  raise_if (row.revision /= t.expected_revision || row.step.status /= t.expected_status)
      state_conflict
  raise_if (not (contains t.target (step_transitions row.step.status))) state_invalid_transition
  raise_if (t.target == StepStatus.failed && not (is_truthy t.error_code)) state_invariant_violation

-- `StateStore.transition_step`
unfoldable pub transition_step : Env → ℕ → StepTransition → ℕ → Exec Step
unfolding verify_lease check_step updated_step touch_run
transition_step env step_id t token = do
  let now = env.clock 0
  row ← or_raise (← gets (λ db. lookup step_id db.steps)) state_not_found
  let run_id = row.step.run_id
  verify_lease env run_id token now
  validated (step_is_valid row.step)
  check_step row t
  let updated = updated_step row.step t now
  validated (step_is_valid updated)
  modify (λ db. record db {
    steps = put step_id (record { step = updated; revision = row.revision + 1 }) db.steps;
  })
  run_row ← or_raise (← gets (λ db. lookup run_id db.runs)) state_not_found
  touch_run run_id run_row.revision now
      (if t.target == StepStatus.running then some step_id else none)
  append_event (later 1 env)
      (record (event run_id (step_event t.target) (step_audit_status t.target)) {
        code = t.error_code;
        step_id = some step_id;
      })
  pure updated
