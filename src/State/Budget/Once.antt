-- ===== src/State/Budget/Once.antt =====
-- A source counts once.
use my_ai_agent_fullstack_tr.Base.{
  List, ap, arith, if◌then◌else◌, inl, inr, list_eq, nat_eq, option_eq, pair_eq, refl, some, subst,
  sym, ℕ, ◌+◌, ◌<◌, ◌==◌, ◌∙◌, ◌∷◌, ◌≡◌,
}
use my_ai_agent_fullstack_tr.Domain.Decimal.{precision_limit}
use my_ai_agent_fullstack_tr.Domain.ErrorCode.{state_conflict}
use my_ai_agent_fullstack_tr.Domain.Models.{BudgetUsage}
use my_ai_agent_fullstack_tr.Domain.Status.{BudgetCategory, budget_category_eq}
use my_ai_agent_fullstack_tr.State.Access.{get_run, get_run-returns, verify_lease}
use my_ai_agent_fullstack_tr.State.Budget.{
  BudgetDeltaCommand, in_category, record_budget_delta, recorded_delta, replay,
}
use my_ai_agent_fullstack_tr.State.Budget.Ledger.{
  in_category-exact, record_budget_delta-returns, same_source_iff,
}
use my_ai_agent_fullstack_tr.Storage.Exec.{err, ok, raised, ◌>>=◌}
use my_ai_agent_fullstack_tr.Storage.Inversion.{bind-ok, gets-ok}
use my_ai_agent_fullstack_tr.Storage.Rows.{BudgetSource, Db, Env, LedgerEntry, RunRow}
use my_ai_agent_fullstack_tr.Storage.Table.{lookup, lookup-put_self}

recorded_delta_self :
    (s : BudgetSource) (n : ℕ) (rows : List LedgerEntry)
    → recorded_delta s (record { source = s; delta = n } ∷ rows) ≡ some n
unfolding recorded_delta
recorded_delta_self s n rows = ground (arith, (same_source_iff s s).1 refl)

-- After a call that returned, its source is on record with its delta, and the usage that it returned
-- is the stored one.
recorded_after :
    (env : Env) (c : BudgetDeltaCommand) (token : ℕ) (db db' : Db) (u : BudgetUsage) (row2 : RunRow)
    → record_budget_delta env c token db ≡ (ok u, db')
    → lookup c.source.run_id db'.runs ≡ some row2
    → in_category c.source.category c.delta ≡ c.delta
    → (recorded_delta c.source db'.budget_ledger ≡ some c.delta) × (row2.run.usage ≡ u)
recorded_after env c token db db' u row2 h found2 exact =
    let (row, how) = record_budget_delta-returns env c token db db' u h in
    elim how [
      | inl done ↦ ground (
        arith,
        done.runs_after,
        done.ledger_after,
        recorded_delta_self c.source (in_category c.source.category c.delta) db.budget_ledger,
        exact,
        lookup-put_self c.source.run_id
            (record {
              run = record row.run { usage = u; updated_at = env.clock 0 };
              revision = row.revision + 1;
            })
            db.runs,
      )
      | inr done ↦ ground (arith, done.found, done.known, done.returned, done.unchanged)
    ]

replay_result :
    (recorded delta : ℕ) (row : RunRow) (db : Db)
    → replay recorded delta row db
      ≡ (if delta == recorded then ok row.run.usage else err (raised state_conflict), db)
unfolding replay ◌>>=◌
replay_result recorded delta row db = ground arith

-- Recorded again by the holder of a live lease, a source changes nothing, where the delta of the first
-- call has at most 28 digits or is no token cost: with the same delta the call returns the same usage
-- as before, with another delta it raises `STATE_CONFLICT`, and both leave the database as it is. The
-- revision that the second call expects does not matter.
pub record_budget_delta_again :
    (env env2 : Env) (c c2 : BudgetDeltaCommand) (token token2 : ℕ) (db db' : Db) (u : BudgetUsage)
    (row2 : RunRow)
    → (c.source.category ≡ BudgetCategory.token_cost → c.delta < precision_limit)
    → record_budget_delta env c token db ≡ (ok u, db')
    → c2.source ≡ c.source
    → verify_lease env2 c.source.run_id token2 (env2.clock 0) db' ≡ (ok tt, db')
    → get_run c.source.run_id db' ≡ (ok row2, db')
    → record_budget_delta env2 c2 token2 db'
      ≡ (if c2.delta == c.delta then ok u else err (raised state_conflict), db')
unfolding record_budget_delta
record_budget_delta_again env env2 c c2 token token2 db db' u row2 few_digits h same lease read =
    let (found2, _, _) = get_run-returns c.source.run_id db' db' row2 read in
    let (known, stored) =
      recorded_after env c token db db' u row2 h found2
        (in_category-exact c.source.category c.delta few_digits) in
    let lease2 =
      subst
        (λ (s : BudgetSource). verify_lease env2 s.run_id token2 (env2.clock 0) db' ≡ (ok tt, db'))
        (sym same) lease in
    let read2 =
      subst (λ (s : BudgetSource). get_run s.run_id db' ≡ (ok row2, db')) (sym same) read in
    let known2 =
      subst (λ (s : BudgetSource). recorded_delta s db'.budget_ledger ≡ some c.delta) (sym same)
        known in
    bind-ok _ _ db' lease2
    ∙ bind-ok _ _ db' read2
    ∙ gets-ok _ _ db' known2
    ∙ replay_result c.delta c2.delta row2 db'
    ∙ ap
        (λ (v : BudgetUsage).
          (if c2.delta == c.delta then ok v else err (raised state_conflict), db'))
        stored
