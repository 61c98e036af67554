-- ===== src/State/Budget.antt =====
-- The budget ledger of a run (state_store.py, and the consistency check of storage.py).
pub mod Ledger
pub mod Balance
pub mod Once
use my_ai_agent_fullstack_tr.Base.{
  Bool, List, Option, [], if◌then◌else◌, list_eq, ltb, nat_eq, none, option_eq, pair_eq, some, ℕ,
  ◌&&◌, ◌+◌, ◌/=◌, ◌==◌, ◌∷◌,
}
use my_ai_agent_fullstack_tr.Domain.Decimal.{rounded}
use my_ai_agent_fullstack_tr.Domain.ErrorCode.{
  state_budget_exceeded, state_conflict, state_invalid_transition,
}
use my_ai_agent_fullstack_tr.Domain.Models.{BudgetUsage, RunBudget}
use my_ai_agent_fullstack_tr.Domain.Status.{
  BudgetCategory, GatePhase, budget_category_eq, budget_source_kind_eq,
}
use my_ai_agent_fullstack_tr.State.Access.{append_event, event, get_run, update_run, verify_lease}
use my_ai_agent_fullstack_tr.State.Runs.{is_terminal}
use my_ai_agent_fullstack_tr.Storage.Exec.{Exec, gets, modify, pure, raise_if, ◌>>=◌, ◌>>◌}
use my_ai_agent_fullstack_tr.Storage.Rows.{
  AuditEventType, AuditStatus, BudgetSource, Env, LedgerEntry, RunRow, later,
}

-- `class BudgetDeltaCommand` of domain.py; its validation makes the delta an integer outside
-- `TOKEN_COST`. A delta of `TOKEN_COST` has as many digits as its caller likes.
pub record BudgetDeltaCommand : Type 0 where
  pub source : BudgetSource
  pub expected_run_revision : ℕ
  pub delta : ℕ

abbrev pub used : BudgetCategory → BudgetUsage → ℕ
used BudgetCategory.steps u = u.steps
used BudgetCategory.tool_calls u = u.tool_calls
used BudgetCategory.token_cost u = u.token_cost
used BudgetCategory.wall_time u = u.wall_time_seconds

abbrev pub limit : BudgetCategory → RunBudget → ℕ
limit BudgetCategory.steps b = b.max_steps
limit BudgetCategory.tool_calls b = b.max_tool_calls
limit BudgetCategory.token_cost b = b.max_token_cost
limit BudgetCategory.wall_time b = b.max_wall_time_seconds

-- The `candidates` of `record_budget_delta`: one category is replaced.
abbrev pub with_used : BudgetCategory → ℕ → BudgetUsage → BudgetUsage
with_used BudgetCategory.steps n u = record u { steps = n }
with_used BudgetCategory.tool_calls n u = record u { tool_calls = n }
with_used BudgetCategory.token_cost n u = record u { token_cost = n }
with_used BudgetCategory.wall_time n u = record u { wall_time_seconds = n }

-- What an operation on amounts results in: integers are exact, a `Decimal` is rounded.
abbrev pub in_category : BudgetCategory → ℕ → ℕ
in_category BudgetCategory.token_cost n = rounded n
in_category _ n = n

abbrev same_source : BudgetSource → BudgetSource → Bool
same_source a b =
    a.run_id == b.run_id
    && a.source_kind == b.source_kind
    && a.source_id == b.source_id
    && a.category == b.category

-- `SELECT delta FROM budget_ledger WHERE …`
pub recorded_delta : BudgetSource → List LedgerEntry → Option ℕ
recorded_delta s [] = none
recorded_delta s (e ∷ rows) = if same_source e.source s then some e.delta else recorded_delta s rows

-- The first call of a source: the checks, the ledger row, and the two UPDATEs of the run's row (its
-- usage columns, then its revision) in one. `normalize` in `_decimal_text` rounds what the ledger gets.
unfoldable consume : Env → BudgetDeltaCommand → RunRow → Exec BudgetUsage
unfolding update_run
consume env c row = do
  let now = env.clock 0
  let category = c.source.category
  raise_if (row.revision /= c.expected_run_revision) state_conflict
  raise_if (is_terminal row.run.status) state_invalid_transition
  let value = in_category category (used category row.run.usage + c.delta)
  raise_if (ltb (limit category row.run.budget) value) state_budget_exceeded
  let usage = with_used category value row.run.usage
  modify (λ db. record db {
    budget_ledger =
        record { source = c.source; delta = in_category category c.delta } ∷ db.budget_ledger;
  })
  update_run c.source.run_id row.revision (λ r. record r { usage = usage; updated_at = now })
  append_event (later 1 env)
      (record (event c.source.run_id AuditEventType.budget_updated AuditStatus.succeeded) {
        phase = GatePhase.budget;
      })
  pure usage

-- A source that has been recorded: the same delta is a replay, another one is a conflict.
replay : ℕ → ℕ → RunRow → Exec BudgetUsage
replay recorded delta row = do raise_if (recorded /= delta) state_conflict; pure row.run.usage

-- The branch on the row of the ledger.
resolve : Env → BudgetDeltaCommand → RunRow → Option ℕ → Exec BudgetUsage
resolve env c row none = consume env c row
resolve env c row (some d) = replay d c.delta row

-- `StateStore.record_budget_delta`
unfoldable pub record_budget_delta : Env → BudgetDeltaCommand → ℕ → Exec BudgetUsage
unfolding verify_lease get_run recorded_delta consume replay resolve
record_budget_delta env c token = do
  verify_lease env c.source.run_id token (env.clock 0)
  row ← get_run c.source.run_id
  existing ← gets (λ db. recorded_delta c.source db.budget_ledger)
  resolve env c row existing

-- The exact sum of the deltas of a run in one category, which `_budget_ledger_consistent` of storage.py
-- compares with the usage.
unfoldable pub ledger_sum : ℕ → BudgetCategory → List LedgerEntry → ℕ
ledger_sum run_id category [] = 0
ledger_sum run_id category (e ∷ rows) =
    (if e.source.run_id == run_id && e.source.category == category then e.delta else 0)
    + ledger_sum run_id category rows
