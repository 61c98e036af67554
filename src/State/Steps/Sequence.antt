-- ===== src/State/Steps/Sequence.antt =====
-- The operations on steps of state_store.py, in any sequence of transactions.
use my_ai_agent_fullstack_tr.Base.{List, [], ℕ, ◌∷◌}
use my_ai_agent_fullstack_tr.Domain.Models.{Step}
use my_ai_agent_fullstack_tr.State.Steps.{StepTransition, create_step, transition_step}
use my_ai_agent_fullstack_tr.State.Steps.Lifecycle.{
  AllInOrder, create_step-AllInOrder, transition_step-AllInOrder,
}
use my_ai_agent_fullstack_tr.Storage.Exec.{Exec, transaction}
use my_ai_agent_fullstack_tr.Storage.Rows.{Db, Env}

-- `create_step` and `transition_step`, with their arguments.
pub data StepOperation : Type 0 where
  create_a_step : Step → ℕ → ℕ → StepOperation
  transition_a_step : ℕ → StepTransition → ℕ → StepOperation

unfoldable run_step : StepOperation → Env → Exec Step
run_step (StepOperation.create_a_step s expected token) env = create_step env s expected token
run_step (StepOperation.transition_a_step step_id t token) env = transition_step env step_id t token

-- One transaction after the other, each with its own surroundings.
unfoldable pub after_steps : List (Env × StepOperation) → Db → Db
unfolding run_step
after_steps [] db = db
after_steps ((env, op) ∷ ops) db = after_steps ops (transaction env (run_step op) db).1

run_step-AllInOrder :
    (env : Env) (op : StepOperation) (db : Db)
    → AllInOrder db
    → AllInOrder (transaction env (run_step op) db).1
unfolding run_step
run_step-AllInOrder env (StepOperation.create_a_step s expected token) db all =
    create_step-AllInOrder env s expected token db all
run_step-AllInOrder env (StepOperation.transition_a_step step_id t token) db all =
    transition_step-AllInOrder env step_id t token db all

-- In any sequence of transactions that create steps and take them further, whatever their outcomes,
-- all stored steps stay in order.
pub after_steps-AllInOrder :
    (ops : List (Env × StepOperation)) (db : Db) → AllInOrder db → AllInOrder (after_steps ops db)
unfolding after_steps
after_steps-AllInOrder [] db all = all
after_steps-AllInOrder ((env, op) ∷ ops) db all =
    after_steps-AllInOrder ops _ (run_step-AllInOrder env op db all)
