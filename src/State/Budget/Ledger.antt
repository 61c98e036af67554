-- ===== src/State/Budget/Ledger.antt =====
-- The budget of a run: it is never exceeded, each source counts once, and the usage columns are the
-- sums of the ledger.
use my_ai_agent_fullstack_tr.Base.{
  Option, arith, false, inl, inr, list_eq, nat_eq, none, option_eq, pair_eq, refl, some, subst, sym,
  true, ℕ, ◌+◌, ◌<◌, ◌↔◌, ◌∙◌, ◌∷◌, ◌≡◌, ◌≤◌, ◌⊎◌,
}
use my_ai_agent_fullstack_tr.Domain.Decimal.{precision_limit, rounded-exact}
use my_ai_agent_fullstack_tr.Domain.Models.{BudgetUsage, Run}
use my_ai_agent_fullstack_tr.Domain.Status.{BudgetCategory, budget_category_eq}
use my_ai_agent_fullstack_tr.State.Access.{
  append_event-returns, get_run-returns, update_run-returns, verify_lease-returns,
}
use my_ai_agent_fullstack_tr.State.Budget.{
  BudgetDeltaCommand, consume, in_category, limit, record_budget_delta, recorded_delta, replay,
  resolve, same_source, used, with_used,
}
use my_ai_agent_fullstack_tr.State.Runs.{is_terminal}
use my_ai_agent_fullstack_tr.Storage.Exec.{ok}
use my_ai_agent_fullstack_tr.Storage.Inversion.{
  bind-returns, gets-returns, modify-returns, pure-returns, raise_if-returns,
}
use my_ai_agent_fullstack_tr.Storage.Rows.{BudgetSource, Db, Env, LedgerEntry, RunRow}
use my_ai_agent_fullstack_tr.Storage.Table.{lookup, put}

pub same_source_iff : (a b : BudgetSource) → (same_source a b ≡ true) ↔ (a ≡ b)
same_source_iff a b = (λ h. ground arith, λ e. ground arith)

-- What `record_budget_delta` has checked and written when its source was new.
pub record Consumed (now : ℕ) (c : BudgetDeltaCommand) (db : Db) (u : BudgetUsage) (db' : Db)
    (row : RunRow) : Type 0 where
  pub found : lookup c.source.run_id db.runs ≡ some row
  pub fresh : recorded_delta c.source db.budget_ledger ≡ none
  pub alive : is_terminal row.run.status ≡ false
  pub fits :
      in_category c.source.category (used c.source.category row.run.usage + c.delta)
      ≤ limit c.source.category row.run.budget
  pub returned :
      u
      ≡ with_used c.source.category
          (in_category c.source.category (used c.source.category row.run.usage + c.delta))
          row.run.usage
  pub runs_after :
      db'.runs
      ≡ put c.source.run_id
          (record {
            run = record row.run { usage = u; updated_at = now };
            revision = row.revision + 1;
          })
          db.runs
  pub ledger_after :
      db'.budget_ledger
      ≡ record { source = c.source; delta = in_category c.source.category c.delta }
        ∷ db.budget_ledger
  pub leases_after : db'.run_leases ≡ db.run_leases

-- What it has checked when the source had been recorded.
pub record Replayed (c : BudgetDeltaCommand) (db : Db) (u : BudgetUsage) (db' : Db) (row : RunRow)
    : Type 0 where
  pub found : lookup c.source.run_id db.runs ≡ some row
  pub known : recorded_delta c.source db.budget_ledger ≡ some c.delta
  pub returned : u ≡ row.run.usage
  pub unchanged : db' ≡ db

-- The database after the ledger's row, one update of the run and one event.
consumed_db :
    (run_id : ℕ) (f : Run → Run) (e : LedgerEntry) (db d1 d2 db' : Db) (row row' : RunRow)
    → lookup run_id db.runs ≡ some row
    → lookup run_id db.runs ≡ some row'
    → d1 ≡ record db {
      budget_ledger = e ∷ db.budget_ledger;
      runs = put run_id (record { run = f row'.run; revision = row'.revision + 1 }) db.runs;
    }
    → d2 ≡ record d1 { audit_events = d2.audit_events }
    → db' ≡ d2
    → (db'.runs ≡ put run_id (record { run = f row.run; revision = row.revision + 1 }) db.runs)
      × (db'.budget_ledger ≡ e ∷ db.budget_ledger)
      × (db'.run_leases ≡ db.run_leases)
consumed_db run_id f e db d1 d2 db' row row' p q e1 e2 e3 = ground arith

consume-Consumed :
    (env : Env) (c : BudgetDeltaCommand) (row : RunRow) (db db' : Db) (u : BudgetUsage)
    → lookup c.source.run_id db.runs ≡ some row
    → recorded_delta c.source db.budget_ledger ≡ none
    → consume env c row db ≡ (ok u, db')
    → Consumed (env.clock 0) c db u db' row
unfolding consume
consume-Consumed env c row db db' u found fresh h =
    let (_, h1) = raise_if-returns _ _ _ db h in
    let (alive, h2) = raise_if-returns _ _ _ db h1 in
    let (fits, h3) = raise_if-returns _ _ _ db h2 in
    let h4 = modify-returns _ _ db h3 in
    let (_, d1, b1, h5) = bind-returns _ _ _ h4 in
    let (_, d2, b2, h6) = bind-returns _ _ d1 h5 in
    let (returned, e3) = pure-returns _ d2 h6 in
    let e2 = append_event-returns _ _ d1 d2 b2 in
    let (row', found', _, e1) = update_run-returns c.source.run_id row.revision _ _ d1 b1 in
    let (r, l, k) =
      consumed_db c.source.run_id
        (λ x. record x {
          usage =
              with_used c.source.category
                (in_category c.source.category (used c.source.category row.run.usage + c.delta))
                row.run.usage;
          updated_at = env.clock 0;
        })
        (record { source = c.source; delta = in_category c.source.category c.delta }) db d1 d2 db'
        row row' found found' e1 e2 e3 in
    record {
      found = found;
      fresh = fresh;
      alive = alive;
      fits = ground (arith, fits);
      returned = returned;
      runs_after =
          subst
            (λ (x : BudgetUsage).
              db'.runs
              ≡ put c.source.run_id
                  (record {
                    run = record row.run { usage = x; updated_at = env.clock 0 };
                    revision = row.revision + 1;
                  })
                  db.runs)
            (sym returned) r;
      ledger_after = l;
      leases_after = k;
    }

-- An amount of 28 digits at most is exact.
pub in_category-exact :
    (k : BudgetCategory) (n : ℕ)
    → (k ≡ BudgetCategory.token_cost → n < precision_limit)
    → in_category k n ≡ n
in_category-exact BudgetCategory.steps n h = refl
in_category-exact BudgetCategory.tool_calls n h = refl
in_category-exact BudgetCategory.token_cost n h = rounded-exact n (h refl)
in_category-exact BudgetCategory.wall_time n h = refl

replay-Replayed :
    (c : BudgetDeltaCommand) (row : RunRow) (recorded : ℕ) (db db' : Db) (u : BudgetUsage)
    → lookup c.source.run_id db.runs ≡ some row
    → recorded_delta c.source db.budget_ledger ≡ some recorded
    → replay recorded c.delta row db ≡ (ok u, db')
    → Replayed c db u db' row
unfolding replay
replay-Replayed c row recorded db db' u found known h =
    let (same, h1) = raise_if-returns _ _ _ db h in
    let (returned, unchanged) = pure-returns _ db h1 in
    record {
      found = found;
      known = ground (arith, known, same);
      returned = returned;
      unchanged = unchanged;
    }

-- `record_budget_delta` returns in two ways.
pub record_budget_delta-returns :
    (env : Env) (c : BudgetDeltaCommand) (token : ℕ) (db db' : Db) (u : BudgetUsage)
    → record_budget_delta env c token db ≡ (ok u, db')
    → (row : RunRow) × (Consumed (env.clock 0) c db u db' row ⊎ Replayed c db u db' row)
unfolding record_budget_delta
record_budget_delta-returns env c token db db' u h =
    let (_, d1, b1, h1) = bind-returns _ _ db h in
    let (_, _, _, _, e1) = verify_lease-returns env c.source.run_id token (env.clock 0) db d1 b1 in
    let (row, d2, b2, h2) = bind-returns _ _ d1 h1 in
    let (found, _, e2) = get_run-returns c.source.run_id d1 d2 row b2 in
    let h3 = gets-returns _ _ d2 h2 in
    let old = subst (λ (d : Db). lookup c.source.run_id d.runs ≡ some row) e1 found in
    let rest =
      subst
        (λ (d : Db). resolve env c row (recorded_delta c.source d.budget_ledger) d ≡ (ok u, db'))
        (e2 ∙ e1) h3 in
    (row, split row old (recorded_delta c.source db.budget_ledger) refl rest)
  where
    split :
        (row : RunRow)
        → lookup c.source.run_id db.runs ≡ some row
        → (existing : Option ℕ) → recorded_delta c.source db.budget_ledger ≡ existing
        → resolve env c row existing db ≡ (ok u, db')
        → Consumed (env.clock 0) c db u db' row ⊎ Replayed c db u db' row
    split row old none e k = inl (consume-Consumed env c row db db' u old e k)
    split row old (some d) e k = inr (replay-Replayed c row d db db' u old e k)
