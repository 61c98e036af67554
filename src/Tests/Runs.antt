-- ===== src/Tests/Runs.antt =====
-- The theorems on the runs, their leases, calls and budgets, and the audit chain, applied.
use my_ai_agent_fullstack_tr.Base.{
  arith, if◌then◌else◌, is_some, list_eq, nat_eq, none, not, option_eq, pair_eq, refl, some, ℕ,
  ℕ_discrete, ◌&&◌, ◌+◌, ◌<◌, ◌==◌, ◌≡◌, ◌≢◌,
}
use my_ai_agent_fullstack_tr.Domain.Decimal.{rounded}
use my_ai_agent_fullstack_tr.Domain.ErrorCode.{state_conflict, state_lease_invalid}
use my_ai_agent_fullstack_tr.Domain.Models.{BudgetUsage, Run}
use my_ai_agent_fullstack_tr.Domain.Status.{
  BudgetCategory, BudgetSourceKind, InvocationStatus, RunStatus, budget_category_eq,
  budget_source_kind_eq, invocation_status_eq, run_status_eq,
}
use my_ai_agent_fullstack_tr.State.Access.{get_run, verify_lease}
use my_ai_agent_fullstack_tr.State.Budget.{BudgetDeltaCommand, ledger_sum, record_budget_delta}
use my_ai_agent_fullstack_tr.State.Budget.Balance.{Balanced, record_budget_delta-Balanced}
use my_ai_agent_fullstack_tr.State.Budget.Once.{record_budget_delta_again}
use my_ai_agent_fullstack_tr.State.Lease.{RunLease, acquire_lease}
use my_ai_agent_fullstack_tr.State.Lease.Fencing.{acquire_lease_fences, acquire_lease_held}
use my_ai_agent_fullstack_tr.State.Runs.{RunTransition, transition_run}
use my_ai_agent_fullstack_tr.State.Runs.Diagram.{Moves, transition_run-Moves}
use my_ai_agent_fullstack_tr.State.Runs.Persisted.{
  AllSettled, transition_run-AllSettled, transition_run_read_back,
}
use my_ai_agent_fullstack_tr.Storage.Exec.{err, ok, raised, transaction}
use my_ai_agent_fullstack_tr.Storage.Rows.{Db, Env, RunRow}
use my_ai_agent_fullstack_tr.Storage.Table.{lookup}
use my_ai_agent_fullstack_tr.Tests.World.{
  agent, at_time, call_in, ended_run, lease_token, pending_approval, reviewer, run_in, shared_steps,
  world,
}

abbrev fresh : Db
fresh = world (run_in RunStatus.new) (call_in InvocationStatus.prepared) pending_approval

abbrev ended : Db
ended = world ended_run (call_in InvocationStatus.succeeded) pending_approval

abbrev starting : RunTransition
starting = record {
  expected_status = RunStatus.new;
  expected_revision = 0;
  target = RunStatus.running;
  stop_reason = none;
  ended_at = none;
  acceptance_status = none;
}

abbrev env : Env
env = at_time 14 agent

abbrev started_run : Run
started_run = record (run_in RunStatus.running) { updated_at = 14; started_at = some 14 }

abbrev started : Db
started = (transition_run env 1 starting lease_token fresh).1

transition_run-Moves_example :
    (before after : RunRow) × (lookup 1 fresh.runs ≡ some before)
    × (before.run.status ≡ RunStatus.new)
    × (before.revision ≡ 0)
    × Moves before.run.status RunStatus.running
    × (lookup 1 started.runs ≡ some after)
    × (after.run.status ≡ RunStatus.running)
    × (after.revision ≡ before.revision + 1)
unfolding transition_run shared_steps
transition_run-Moves_example =
    transition_run-Moves env 1 starting lease_token fresh started started_run refl

transition_run_read_back_example :
    (before after : RunRow) × (lookup 1 fresh.runs ≡ some before)
    × (lookup 1 started.runs ≡ some after)
    × (after.run ≡ record started_run { started_at = before.run.started_at })
    × (some 14 ≡ (
        if RunStatus.running == RunStatus.running && not (is_some before.run.started_at)
        then some 14
        else before.run.started_at))
unfolding transition_run shared_steps
transition_run_read_back_example =
    transition_run_read_back env 1 starting lease_token fresh started started_run refl

fresh-AllSettled : AllSettled fresh
unfolding lookup ℕ_discrete
fresh-AllSettled = record { at = λ k row h. ground (arith, h) }

transition_run-AllSettled_example :
    AllSettled (transaction env (λ e. transition_run e 1 starting lease_token) fresh).1
transition_run-AllSettled_example =
    transition_run-AllSettled env 1 starting lease_token fresh fresh-AllSettled

acquire_lease_held_example :
    (transaction env (λ e. acquire_lease e 1 reviewer (record { ttl_seconds = 30 })) fresh).1
    ≡ fresh
unfolding lookup ℕ_discrete
acquire_lease_held_example =
    acquire_lease_held env 1 reviewer (record { ttl_seconds = 30 }) fresh refl (omega arith)

-- The lease has expired, and the reviewer takes the run over.
abbrev taken_over : RunLease
taken_over = record {
  run_id = 1;
  owner_id = reviewer;
  token = 70;
  acquired_at = 95;
  heartbeat_at = 95;
  expires_at = 30000095;
}

abbrev after_takeover : Db
after_takeover =
    (acquire_lease (at_time 95 reviewer) 1 reviewer (record { ttl_seconds = 30 }) fresh).1

acquire_lease_fences_example :
    ((now : ℕ)
      → now < 30000095
      → verify_lease (at_time 95 reviewer) 1 70 now after_takeover ≡ (ok tt, after_takeover))
    × ((t now : ℕ)
        → t + 1 ≢ 71
        → verify_lease (at_time 95 reviewer) 1 t now after_takeover
          ≡ (err (raised state_lease_invalid), after_takeover))
unfolding acquire_lease shared_steps
acquire_lease_fences_example =
    acquire_lease_fences (at_time 95 reviewer) 1 reviewer (record { ttl_seconds = 30 }) fresh
      after_takeover taken_over refl

abbrev going : Db
going = world (run_in RunStatus.running) (call_in InvocationStatus.prepared) pending_approval

abbrev three_units : BudgetDeltaCommand
three_units = record {
  source = record {
    run_id = 1;
    source_kind = BudgetSourceKind.step;
    source_id = 50;
    category = BudgetCategory.token_cost;
  };
  expected_run_revision = 0;
  delta = 3;
}

going-Balanced : Balanced going
unfolding lookup ℕ_discrete ledger_sum
going-Balanced = record {
  within = λ k row c h. ground (arith, h);
  summed = λ k row c h. ground (arith, h);
}

record_budget_delta-Balanced_example :
    Balanced (transaction env (λ e. record_budget_delta e three_units lease_token) going).1
unfolding lookup ℕ_discrete
record_budget_delta-Balanced_example =
    record_budget_delta-Balanced env three_units lease_token going
      (λ row k found. ground (arith, found)) going-Balanced

abbrev spent : BudgetUsage
spent = record { steps = 0; tool_calls = 0; token_cost = 3; wall_time_seconds = 0 }

abbrev after_spending : Db
after_spending = (record_budget_delta env three_units lease_token going).1

abbrev spent_row : RunRow
spent_row = record {
  run = record (run_in RunStatus.running) { usage = spent; updated_at = 14 };
  revision = 1;
}

record_budget_delta_again_example :
    record_budget_delta (at_time 20 agent) three_units lease_token after_spending ≡ (
      if three_units.delta == three_units.delta then ok spent else err (raised state_conflict),
      after_spending,
    )
unfolding record_budget_delta verify_lease get_run shared_steps rounded
record_budget_delta_again_example =
    record_budget_delta_again env (at_time 20 agent) three_units three_units lease_token lease_token
      going after_spending spent spent_row (λ k. omega arith) refl refl refl refl

-- A delta of 29 digits, for a run that may use it: the ledger gets it without its last digit, so the
-- same call conflicts with itself.
abbrev rich : Db
rich =
    world
      (record (run_in RunStatus.running) {
        budget = record {
          max_steps = 5;
          max_tool_calls = 5;
          max_token_cost = 20000000000000000000000000000;
          max_wall_time_seconds = 50;
        };
      })
      (call_in InvocationStatus.prepared) pending_approval

abbrev long_delta : BudgetDeltaCommand
long_delta = record three_units { delta = 10000000000000000000000000001 }

conflicts_with_itself :
    (record_budget_delta
      (at_time 20 agent)
      long_delta
      lease_token
      (record_budget_delta env long_delta lease_token rich).1).0
    ≡ err (raised state_conflict)
unfolding record_budget_delta rounded shared_steps
conflicts_with_itself = refl
