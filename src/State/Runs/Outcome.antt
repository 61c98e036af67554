-- ===== src/State/Runs/Outcome.antt =====
-- What a successful `transition_run` has checked and written.
use my_ai_agent_fullstack_tr.Base.{
  arith, contains, is_some, list_eq, nat_eq, not, option_eq, pair_eq, some, subst, sym, true, ℕ,
  ◌+◌, ◌==◌, ◌||◌, ◌∙◌, ◌≡◌,
}
use my_ai_agent_fullstack_tr.Domain.Models.{Run, run_is_valid}
use my_ai_agent_fullstack_tr.Domain.Status.{RunStatus, run_status_eq}
use my_ai_agent_fullstack_tr.State.Access.{
  append_event-returns, get_run-returns, update_run-returns, update_then_event,
  verify_lease-returns,
}
use my_ai_agent_fullstack_tr.State.Runs.{
  RunTransition, acceptance_after, check_run_transition, is_evaluated, is_terminal, needs_reason,
  run_transitions, stored_run, transition_run, updated_run,
}
use my_ai_agent_fullstack_tr.Storage.Exec.{ok, ◌>>=◌}
use my_ai_agent_fullstack_tr.Storage.Inversion.{bind-returns, pure-returns, validated-returns}
use my_ai_agent_fullstack_tr.Storage.Rows.{Db, Env, RunRow}
use my_ai_agent_fullstack_tr.Storage.Table.{lookup, put}

-- The conditions that `check_run_transition` lets pass.
pub record Checked (row : RunRow) (t : RunTransition) : Type 0 where
  pub revision_fits : row.revision ≡ t.expected_revision
  pub status_fits : row.run.status ≡ t.expected_status
  pub allowed : contains t.target (run_transitions row.run.status) ≡ true
  pub end_fits : (is_terminal t.target || not (is_some t.ended_at)) ≡ true
  pub reason_fits : is_some t.stop_reason ≡ needs_reason t.target
  pub acceptance_fits :
      (not (t.target == RunStatus.completed)
        || is_evaluated (acceptance_after t row.run.acceptance_status))
      ≡ true

-- The database `db` with the run's row as the UPDATE leaves it, and the events of `db'`.
abbrev after_run : ℕ → RunRow → Run → Db → Db → Db
after_run run_id row r db db' = record db {
  runs = put run_id (record { run = stored_run r row.run; revision = row.revision + 1 }) db.runs;
  audit_events = db'.audit_events;
}

-- The row of the run before the call, what the call found there, and the database after it.
pub record Transitioned (run_id : ℕ) (t : RunTransition) (now : ℕ) (db : Db) (r : Run) (db' : Db)
    (row : RunRow) : Type 0 where
  pub found : lookup run_id db.runs ≡ some row
  pub checked : Checked row t
  pub returned : r ≡ updated_run row.run t now
  pub valid : run_is_valid r ≡ true
  pub after : db' ≡ after_run run_id row r db db'

check_run_transition-returns :
    (row : RunRow) (t : RunTransition) (db db' : Db)
    → check_run_transition row t db ≡ (ok tt, db')
    → Checked row t × (db' ≡ db)
unfolding check_run_transition ◌>>=◌
check_run_transition-returns row t db db' h = ground arith

pub transition_run-Transitioned :
    (env : Env) (run_id : ℕ) (t : RunTransition) (token : ℕ) (db db' : Db) (r : Run)
    → transition_run env run_id t token db ≡ (ok r, db')
    → (row : RunRow) × Transitioned run_id t (env.clock 0) db r db' row
unfolding transition_run
transition_run-Transitioned env run_id t token db db' r h =
    let (_, d1, b1, h1) = bind-returns _ _ db h in
    let (row, d2, b2, h2) = bind-returns _ _ d1 h1 in
    let (_, d3, b3, h3) = bind-returns _ _ d2 h2 in
    let (valid, h4) = validated-returns _ _ d3 h3 in
    let (_, d4, b4, h5) = bind-returns _ _ d3 h4 in
    let (_, d5, b5, h6) = bind-returns _ _ d4 h5 in
    let (_, _, _, _, e1) = verify_lease-returns env run_id token (env.clock 0) db d1 b1 in
    let (found, _, e2) = get_run-returns run_id d1 d2 row b2 in
    let (checked, e3) = check_run_transition-returns row t d2 d3 b3 in
    let (row', found', _, e4) = update_run-returns run_id row.revision _ d3 d4 b4 in
    let e5 = append_event-returns _ _ d4 d5 b5 in
    let (returned, e6) = pure-returns _ d5 h6 in
    let old = subst (λ (d : Db). lookup run_id d.runs ≡ some row) e1 found in
    let after =
      update_then_event run_id (stored_run (updated_run row.run t (env.clock 0))) db d3 d4 d5 db'
        row row' (e3 ∙ e2 ∙ e1) old found' e4 e5 e6 in
    (
      row,
      record {
        found = old;
        checked = checked;
        returned = returned;
        valid = subst (λ (x : Run). run_is_valid x ≡ true) (sym returned) valid;
        after = subst (λ (x : Run). db' ≡ after_run run_id row x db db') (sym returned) after;
      },
    )
