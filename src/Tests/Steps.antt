-- ===== src/Tests/Steps.antt =====
-- The theorems on the steps and on a claim that comes too late, applied.
use my_ai_agent_fullstack_tr.Base.{
  Bool, List, [], arith, false, list_eq, nat_eq, none, option_eq, pair_eq, refl, some, true,
  ℕ_discrete, ◌+◌, ◌==◌, ◌∷◌, ◌≡◌,
}
use my_ai_agent_fullstack_tr.Approval.Claim.{claim}
use my_ai_agent_fullstack_tr.Domain.ErrorCode.{approval_expired}
use my_ai_agent_fullstack_tr.Domain.Models.{Approval, Step, step_is_valid}
use my_ai_agent_fullstack_tr.Domain.Status.{
  ApprovalStatus, InvocationStatus, RunStatus, StepStatus, StepStatus-discrete, approval_status_eq,
  invocation_status_eq, run_status_eq, step_status_eq,
}
use my_ai_agent_fullstack_tr.State.Steps.{StepTransition, transition_step}
use my_ai_agent_fullstack_tr.State.Steps.Lifecycle.{
  AllInOrder, Progresses, transition_step-Progresses,
}
use my_ai_agent_fullstack_tr.State.Steps.Sequence.{
  StepOperation, after_steps, after_steps-AllInOrder,
}
use my_ai_agent_fullstack_tr.Storage.Exec.{Result, err, ok, raised}
use my_ai_agent_fullstack_tr.Storage.Rows.{Db, Env, RunRow, StepRow}
use my_ai_agent_fullstack_tr.Storage.Table.{lookup}
use my_ai_agent_fullstack_tr.Tests.World.{
  agent, approved_approval, at_time, call_in, lease_token, pending_approval, run_in, shared_steps,
  world,
}

abbrev env : Env
env = at_time 14 agent

abbrev planned_step : Step
planned_step = record {
  step_id = 30;
  run_id = 1;
  ordinal = 0;
  status = StepStatus.planned;
  summary = [];
  started_at = 10;
  ended_at = none;
}

abbrev with_step : Db
with_step =
    record (world (run_in RunStatus.running) (call_in InvocationStatus.prepared) pending_approval) {
      steps = (30, record { step = planned_step; revision = 0 }) ∷ [];
    }

abbrev begin_step : StepTransition
begin_step = record {
  expected_status = StepStatus.planned;
  expected_revision = 0;
  target = StepStatus.running;
  ended_at = none;
  error_code = none;
}

abbrev running_step : Step
running_step = record planned_step { status = StepStatus.running }

abbrev begun_step : Db
begun_step = (transition_step env 30 begin_step lease_token with_step).1

transition_step-Progresses_example :
    (before : StepRow) × (lookup 30 with_step.steps ≡ some before)
    × (before.step.status ≡ StepStatus.planned)
    × (before.revision ≡ 0)
    × Progresses before.step.status StepStatus.running
    × (running_step ≡ record before.step { status = StepStatus.running; ended_at = none })
    × (lookup 30 begun_step.steps
        ≡ some (record { step = running_step; revision = before.revision + 1 }))
unfolding transition_step step_is_valid StepStatus-discrete shared_steps
transition_step-Progresses_example =
    transition_step-Progresses env 30 begin_step lease_token with_step begun_step running_step refl

with_step-AllInOrder : AllInOrder with_step
unfolding lookup ℕ_discrete step_is_valid
with_step-AllInOrder = record { at = λ k row h. ground (arith, h) }

abbrev too_late : Db
too_late =
    world (run_in RunStatus.waiting_approval) (call_in InvocationStatus.prepared)
      (record approved_approval { expires_at = 20; binding_digest = 40 })

-- Before the rollback, the claim has stored the expiry and stopped the run.
expiry_before_rollback :
    let (r, db) = claim (at_time 50 agent) 8 1 20 lease_token too_late in
    (r ≡ err (raised approval_expired))
    × ((a : Approval) × (lookup 8 db.approvals ≡ some a) × (a.status ≡ ApprovalStatus.expired))
    × ((row : RunRow) × (lookup 1 db.runs ≡ some row) × (row.run.status ≡ RunStatus.stopped))
unfolding claim shared_steps
expiry_before_rollback = (refl, (_, refl, refl), (_, refl, refl))

-- The claim does not ask whether the call has started already.
abbrev started_call : Db
started_call =
    world (run_in RunStatus.waiting_approval) (call_in InvocationStatus.started) approved_approval

claimed_status : Result Approval → Bool
claimed_status (ok a) = a.status == ApprovalStatus.claimed
claimed_status (err e) = false

claim_of_started_call : claimed_status (claim env 8 1 20 lease_token started_call).0 ≡ true
unfolding claimed_status claim shared_steps
claim_of_started_call = refl

abbrev create_and_begin : List (Env × StepOperation)
create_and_begin =
    (
      env,
      StepOperation.create_a_step (record planned_step { step_id = 31; ordinal = 1 }) 0 lease_token,
    )
    ∷ (env, StepOperation.transition_a_step 30 begin_step lease_token)
    ∷ []

after_steps-AllInOrder_example : AllInOrder (after_steps create_and_begin with_step)
after_steps-AllInOrder_example =
    after_steps-AllInOrder create_and_begin with_step with_step-AllInOrder
