-- ===== src/State/Invocations/Sequence.antt =====
-- The operations on tool calls of state_store.py, in any sequence of transactions.
use my_ai_agent_fullstack_tr.Base.{List, [], ℕ, ◌∷◌}
use my_ai_agent_fullstack_tr.Domain.Models.{ToolInvocation}
use my_ai_agent_fullstack_tr.State.Invocations.{
  InvocationTransition, create_invocation, transition_invocation,
}
use my_ai_agent_fullstack_tr.State.Invocations.Lifecycle.{
  AllOrdered, create_invocation-AllOrdered, transition_invocation-AllOrdered,
}
use my_ai_agent_fullstack_tr.Storage.Exec.{Exec, transaction}
use my_ai_agent_fullstack_tr.Storage.Rows.{Db, Env}

-- `create_invocation` and `transition_invocation`, with their arguments.
pub data CallOperation : Type 0 where
  create_a_call : ToolInvocation → ℕ → ℕ → CallOperation
  transition_a_call : ℕ → ℕ → InvocationTransition → ℕ → CallOperation

unfoldable run_call : CallOperation → Env → Exec ToolInvocation
run_call (CallOperation.create_a_call i expected token) env = create_invocation env i expected token
run_call (CallOperation.transition_a_call run_id call_id t token) env =
    transition_invocation env run_id call_id t token

-- One transaction after the other, each with its own surroundings.
unfoldable pub after_calls : List (Env × CallOperation) → Db → Db
unfolding run_call
after_calls [] db = db
after_calls ((env, op) ∷ ops) db = after_calls ops (transaction env (run_call op) db).1

run_call-AllOrdered :
    (env : Env) (op : CallOperation) (db : Db)
    → AllOrdered db
    → AllOrdered (transaction env (run_call op) db).1
unfolding run_call
run_call-AllOrdered env (CallOperation.create_a_call i expected token) db all =
    create_invocation-AllOrdered env i expected token db all
run_call-AllOrdered env (CallOperation.transition_a_call run_id call_id t token) db all =
    transition_invocation-AllOrdered env run_id call_id t token db all

-- In any sequence of transactions that create tool calls and take them further, whatever their
-- outcomes, all stored calls stay in order.
pub after_calls-AllOrdered :
    (ops : List (Env × CallOperation)) (db : Db) → AllOrdered db → AllOrdered (after_calls ops db)
unfolding after_calls
after_calls-AllOrdered [] db all = all
after_calls-AllOrdered ((env, op) ∷ ops) db all =
    after_calls-AllOrdered ops _ (run_call-AllOrdered env op db all)
