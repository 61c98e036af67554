-- ===== src/State/Runs/Persisted.antt =====
-- What of a run's transition can be read back.
use my_ai_agent_fullstack_tr.Base.{
  ap, arith, if◌then◌else◌, is_some, list_eq, nat_eq, not, option_eq, pair_eq, refl, some, subst,
  sym, true, ℕ, ◌&&◌, ◌+◌, ◌==◌, ◌≡◌,
}
use my_ai_agent_fullstack_tr.Domain.Models.{Run}
use my_ai_agent_fullstack_tr.Domain.Status.{RunStatus, run_status_eq}
use my_ai_agent_fullstack_tr.State.Runs.{
  RunTransition, is_evaluated, is_terminal, needs_reason, stored_run, transition_run, updated_run,
}
use my_ai_agent_fullstack_tr.State.Runs.Outcome.{Checked, transition_run-Transitioned}
use my_ai_agent_fullstack_tr.Storage.Atomic.{inside, transaction_keeps}
use my_ai_agent_fullstack_tr.Storage.Exec.{ok, transaction}
use my_ai_agent_fullstack_tr.Storage.Rows.{Db, Env, RunRow}
use my_ai_agent_fullstack_tr.Storage.Table.{lookup, lookup-put, lookup-put_self, put}

-- What an ended or unfinished run carries.
pub record IsSettled (r : Run) : Type 0 where
  pub ended : is_some r.ended_at ≡ is_terminal r.status
  pub reason : is_some r.stop_reason ≡ needs_reason r.status
  pub accepted : r.status ≡ RunStatus.completed → is_evaluated r.acceptance_status ≡ true

pub record AllSettled (db : Db) : Type 0 where
  pub at : (run_id : ℕ) (row : RunRow) → lookup run_id db.runs ≡ some row → IsSettled row.run

stored_run-IsSettled :
    (row : RunRow) (t : RunTransition) (now : ℕ)
    → Checked row t
    → IsSettled (stored_run (updated_run row.run t now) row.run)
unfolding stored_run updated_run
stored_run-IsSettled row t now fits =
    ground (arith, fits.end_fits, fits.reason_fits, fits.acceptance_fits)

-- The run that is read back after a transition is the run that was returned, but for `started_at`:
-- that stays as it was stored before, also where the returned run says that it starts now.
pub transition_run_read_back :
    (env : Env) (run_id : ℕ) (t : RunTransition) (token : ℕ) (db db' : Db) (r : Run)
    → transition_run env run_id t token db ≡ (ok r, db')
    → (before after : RunRow) × (lookup run_id db.runs ≡ some before)
      × (lookup run_id db'.runs ≡ some after)
      × (after.run ≡ record r { started_at = before.run.started_at })
      × (r.started_at ≡ (
          if t.target == RunStatus.running && not (is_some before.run.started_at)
          then some (env.clock 0)
          else before.run.started_at))
unfolding stored_run updated_run
transition_run_read_back env run_id t token db db' r h =
    let (row, done) = transition_run-Transitioned env run_id t token db db' r h in
    let new_row : RunRow = record { run = stored_run r row.run; revision = row.revision + 1 } in
    (
      row,
      new_row,
      done.found,
      subst (λ (d : Db). lookup run_id d.runs ≡ some new_row) (sym done.after)
          (lookup-put_self run_id new_row db.runs),
      subst (λ (x : Run). stored_run x row.run ≡ record x { started_at = row.run.started_at })
          (sym done.returned) refl,
      ap (λ (x : Run). x.started_at) done.returned,
    )

settled_after :
    (run_id : ℕ) (row : RunRow) (db db' : Db)
    → AllSettled db
    → IsSettled row.run
    → db' ≡ record db { runs = put run_id row db.runs; audit_events = db'.audit_events }
    → AllSettled db'
settled_after run_id row db db' settled s e = record {
  at = λ k row' h. ground (arith, e, lookup-put run_id k row db.runs, settled.at k row', s);
}

-- A transaction of `transition_run`, whatever its outcome, keeps the stored runs settled, if they all
-- were before it: exactly the ended runs have an end, exactly the stopped, failed and blocked ones a
-- reason, and a completed run has been evaluated.
pub transition_run-AllSettled :
    (env : Env) (run_id : ℕ) (t : RunTransition) (token : ℕ) (db : Db)
    → AllSettled db
    → AllSettled (transaction env (λ e. transition_run e run_id t token) db).1
transition_run-AllSettled env run_id t token db settled =
    transaction_keeps AllSettled env (λ e. transition_run e run_id t token) db settled
      λ r db' h.
        let (row, done) = transition_run-Transitioned (inside env) run_id t token db db' r h in
        settled_after run_id (record { run = stored_run r row.run; revision = row.revision + 1 }) db
          db' settled
          (subst (λ (x : Run). IsSettled (stored_run x row.run)) (sym done.returned)
            (stored_run-IsSettled row t (env.clock 0) done.checked))
          done.after
