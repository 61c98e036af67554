-- ===== src/State/Budget/Balance.antt =====
-- The usage of the stored runs: within the budget, and the sums of the ledger.
use my_ai_agent_fullstack_tr.Base.{
  arith, if◌then◌else◌, inl, inr, list_eq, nat_eq, option_eq, pair_eq, refl, some, subst, sym, ℕ,
  ◌+◌, ◌<◌, ◌==◌, ◌∷◌, ◌≡◌, ◌≤◌,
}
use my_ai_agent_fullstack_tr.Domain.Decimal.{precision_limit}
use my_ai_agent_fullstack_tr.Domain.Models.{BudgetUsage}
use my_ai_agent_fullstack_tr.Domain.Status.{
  BudgetCategory, BudgetCategory-discrete, budget_category_eq,
}
use my_ai_agent_fullstack_tr.State.Budget.{
  BudgetDeltaCommand, in_category, ledger_sum, limit, record_budget_delta, used, with_used,
}
use my_ai_agent_fullstack_tr.State.Budget.Ledger.{
  Consumed, in_category-exact, record_budget_delta-returns,
}
use my_ai_agent_fullstack_tr.Storage.Atomic.{inside, transaction_keeps}
use my_ai_agent_fullstack_tr.Storage.Exec.{transaction}
use my_ai_agent_fullstack_tr.Storage.Rows.{Db, Env, RunRow}
use my_ai_agent_fullstack_tr.Storage.Table.{lookup, lookup-put}

used-with_used :
    (k c : BudgetCategory) (n : ℕ) (u : BudgetUsage)
    → used k (with_used c n u) ≡ (if k == c then n else used k u)
unfolding BudgetCategory-discrete
used-with_used BudgetCategory.steps BudgetCategory.steps n u = refl
used-with_used BudgetCategory.steps BudgetCategory.tool_calls n u = refl
used-with_used BudgetCategory.steps BudgetCategory.token_cost n u = refl
used-with_used BudgetCategory.steps BudgetCategory.wall_time n u = refl
used-with_used BudgetCategory.tool_calls BudgetCategory.steps n u = refl
used-with_used BudgetCategory.tool_calls BudgetCategory.tool_calls n u = refl
used-with_used BudgetCategory.tool_calls BudgetCategory.token_cost n u = refl
used-with_used BudgetCategory.tool_calls BudgetCategory.wall_time n u = refl
used-with_used BudgetCategory.token_cost BudgetCategory.steps n u = refl
used-with_used BudgetCategory.token_cost BudgetCategory.tool_calls n u = refl
used-with_used BudgetCategory.token_cost BudgetCategory.token_cost n u = refl
used-with_used BudgetCategory.token_cost BudgetCategory.wall_time n u = refl
used-with_used BudgetCategory.wall_time BudgetCategory.steps n u = refl
used-with_used BudgetCategory.wall_time BudgetCategory.tool_calls n u = refl
used-with_used BudgetCategory.wall_time BudgetCategory.token_cost n u = refl
used-with_used BudgetCategory.wall_time BudgetCategory.wall_time n u = refl

-- Every stored run has used what the ledger says, and no more than its budget.
pub record Balanced (db : Db) : Type 0 where
  pub within :
      (run_id : ℕ) (row : RunRow) (k : BudgetCategory)
      → lookup run_id db.runs ≡ some row
      → used k row.run.usage ≤ limit k row.run.budget
  pub summed :
      (run_id : ℕ) (row : RunRow) (k : BudgetCategory)
      → lookup run_id db.runs ≡ some row
      → used k row.run.usage ≡ ledger_sum run_id k db.budget_ledger

Consumed-Balanced :
    (now : ℕ) (c : BudgetDeltaCommand) (db db' : Db) (u : BudgetUsage) (row : RunRow)
    → Balanced db
    → Consumed now c db u db' row
    → in_category c.source.category (used c.source.category row.run.usage + c.delta)
      ≡ used c.source.category row.run.usage + c.delta
    → in_category c.source.category c.delta ≡ c.delta
    → Balanced db'
unfolding ledger_sum
Consumed-Balanced now c db db' u row b done exact_sum exact_delta =
    let category = c.source.category in
    let value = used category row.run.usage + c.delta in
    let fits : value ≤ limit category row.run.budget =
      subst (λ n. n ≤ limit category row.run.budget) exact_sum done.fits in
    let returned : u ≡ with_used category value row.run.usage =
      subst (λ n. u ≡ with_used category n row.run.usage) exact_sum done.returned in
    let ledger_after : db'.budget_ledger
        ≡ record { source = c.source; delta = c.delta } ∷ db.budget_ledger =
      subst (λ n. db'.budget_ledger ≡ record { source = c.source; delta = n } ∷ db.budget_ledger)
        exact_delta done.ledger_after in
    let new_row : RunRow = record {
      run = record row.run { usage = u; updated_at = now };
      revision = row.revision + 1;
    } in
    record {
      within = λ k r x h. ground (
        arith,
        h,
        done.runs_after,
        returned,
        fits,
        done.found,
        lookup-put c.source.run_id k new_row db.runs,
        b.within k r x,
        b.within c.source.run_id row x done.found,
        used-with_used x category value row.run.usage,
      );
      summed = λ k r x h. ground (
        arith,
        h,
        done.runs_after,
        ledger_after,
        returned,
        done.found,
        lookup-put c.source.run_id k new_row db.runs,
        b.summed k r x,
        b.summed c.source.run_id row x done.found,
        used-with_used x category value row.run.usage,
      );
    }

-- Where the token cost of the run and the delta together have at most 28 digits, a transaction of
-- `record_budget_delta`, whatever its outcome, keeps every stored run within its budget and its usage
-- equal to the sums of the ledger.
pub record_budget_delta-Balanced :
    (env : Env) (c : BudgetDeltaCommand) (token : ℕ) (db : Db)
    → ((row : RunRow)
        → c.source.category ≡ BudgetCategory.token_cost
        → lookup c.source.run_id db.runs ≡ some row
        → used c.source.category row.run.usage + c.delta < precision_limit)
    → Balanced db
    → Balanced (transaction env (λ e. record_budget_delta e c token) db).1
record_budget_delta-Balanced env c token db few_digits b =
    transaction_keeps Balanced env (λ e. record_budget_delta e c token) db b
      λ u db' h.
        let (row, how) = record_budget_delta-returns (inside env) c token db db' u h in
        elim how [
          | inl done ↦
              Consumed-Balanced (env.clock 0) c db db' u row b done
                (in_category-exact c.source.category _ λ k. few_digits row k done.found)
                (in_category-exact c.source.category c.delta
                  λ k. omega (arith, few_digits row k done.found))
          | inr done ↦ subst Balanced (sym done.unchanged) b
        ]
