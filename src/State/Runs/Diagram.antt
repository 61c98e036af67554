-- ===== src/State/Runs/Diagram.antt =====
-- `transition_run` against the diagram of the run's lifecycle.
use my_ai_agent_fullstack_tr.Base.{
  Option, ap, arith, contains, list_eq, nat_eq, option_eq, pair_eq, refl, some, subst, sym, true, ℕ,
  ◌+◌, ◌≡◌, ◌≢◌,
}
use my_ai_agent_fullstack_tr.Domain.Models.{Run}
use my_ai_agent_fullstack_tr.Domain.Status.{RunStatus, RunStatus-discrete, run_status_eq}
use my_ai_agent_fullstack_tr.State.Runs.{
  RunTransition, is_terminal, run_transitions, stored_run, transition_run, updated_run,
}
use my_ai_agent_fullstack_tr.State.Runs.Outcome.{transition_run-Transitioned}
use my_ai_agent_fullstack_tr.Storage.Atomic.{inside, transaction_rolls_back}
use my_ai_agent_fullstack_tr.Storage.Exec.{ok, transaction}
use my_ai_agent_fullstack_tr.Storage.Rows.{Db, Env, RunRow}
use my_ai_agent_fullstack_tr.Storage.Table.{lookup, lookup-put_self}

-- A run that is on its way: it may still fail or be blocked.
pub data IsActive : RunStatus → Type 0 where
  running : IsActive RunStatus.running
  waiting : IsActive RunStatus.waiting_approval
  verifying : IsActive RunStatus.verifying

-- The diagram: a run starts, may wait for an approval and go on, is stopped, or is verified and
-- completed; on its way it may fail or be blocked.
pub data Moves : RunStatus → RunStatus → Type 0 where
  start : Moves RunStatus.new RunStatus.running
  wait : Moves RunStatus.running RunStatus.waiting_approval
  resume : Moves RunStatus.waiting_approval RunStatus.running
  verify : Moves RunStatus.running RunStatus.verifying
  complete : Moves RunStatus.verifying RunStatus.completed
  stop_running : Moves RunStatus.running RunStatus.stopped
  stop_waiting : Moves RunStatus.waiting_approval RunStatus.stopped
  fail : {s : RunStatus} → IsActive s → Moves s RunStatus.failed
  block : {s : RunStatus} → IsActive s → Moves s RunStatus.blocked

ruleset moves = (
  start, wait, resume, verify, complete, stop_running, stop_waiting, fail, block, running, waiting,
  verifying,
)

allowed-Moves : (s t : RunStatus) → contains t (run_transitions s) ≡ true → Moves s t
unfolding run_transitions RunStatus-discrete
allowed-Moves RunStatus.new RunStatus.running h = start
allowed-Moves RunStatus.running RunStatus.waiting_approval h = wait
allowed-Moves RunStatus.running RunStatus.verifying h = verify
allowed-Moves RunStatus.running RunStatus.stopped h = stop_running
allowed-Moves RunStatus.running RunStatus.failed h = fail running
allowed-Moves RunStatus.running RunStatus.blocked h = block running
allowed-Moves RunStatus.waiting_approval RunStatus.running h = resume
allowed-Moves RunStatus.waiting_approval RunStatus.stopped h = stop_waiting
allowed-Moves RunStatus.waiting_approval RunStatus.failed h = fail waiting
allowed-Moves RunStatus.waiting_approval RunStatus.blocked h = block waiting
allowed-Moves RunStatus.verifying RunStatus.completed h = complete
allowed-Moves RunStatus.verifying RunStatus.failed h = fail verifying
allowed-Moves RunStatus.verifying RunStatus.blocked h = block verifying
allowed-Moves _ _ h = cc

Moves-allowed : {s t : RunStatus} → Moves s t → contains t (run_transitions s) ≡ true
unfolding run_transitions RunStatus-discrete
Moves-allowed start = refl
Moves-allowed wait = refl
Moves-allowed resume = refl
Moves-allowed verify = refl
Moves-allowed complete = refl
Moves-allowed stop_running = refl
Moves-allowed stop_waiting = refl
Moves-allowed (fail running) = refl
Moves-allowed (fail waiting) = refl
Moves-allowed (fail verifying) = refl
Moves-allowed (block running) = refl
Moves-allowed (block waiting) = refl
Moves-allowed (block verifying) = refl

-- A transition that returns follows an edge of the diagram: the stored run had the status and the
-- revision that the caller expected, goes along an edge from its status to the status that the caller
-- asked for, and its revision goes up by one.
pub transition_run-Moves :
    (env : Env) (run_id : ℕ) (t : RunTransition) (token : ℕ) (db db' : Db) (r : Run)
    → transition_run env run_id t token db ≡ (ok r, db')
    → (before after : RunRow) × (lookup run_id db.runs ≡ some before)
      × (before.run.status ≡ t.expected_status)
      × (before.revision ≡ t.expected_revision)
      × Moves before.run.status t.target
      × (lookup run_id db'.runs ≡ some after)
      × (after.run.status ≡ t.target)
      × (after.revision ≡ before.revision + 1)
unfolding stored_run updated_run
transition_run-Moves env run_id t token db db' r h =
    let (row, done) = transition_run-Transitioned env run_id t token db db' r h in
    let fits = done.checked in
    let new_row : RunRow = record { run = stored_run r row.run; revision = row.revision + 1 } in
    (
      row,
      new_row,
      done.found,
      fits.status_fits,
      fits.revision_fits,
      allowed-Moves row.run.status t.target fits.allowed,
      subst (λ (d : Db). lookup run_id d.runs ≡ some new_row) (sym done.after)
          (lookup-put_self run_id new_row db.runs),
      ap (λ (x : Run). x.status) done.returned,
      refl,
    )

terminal_absorbs :
    (row row' : RunRow) {found : Option RunRow} (target : RunStatus)
    → found ≡ some row
    → found ≡ some row'
    → is_terminal row.run.status ≡ true
    → contains target (run_transitions row'.run.status) ≢ true
unfolding run_transitions
terminal_absorbs row row' target p q ended allowed = ground arith

-- A run that has ended stays as it is: no transition of it returns, and its transaction leaves the
-- database unchanged.
transition_run_terminal :
    (env : Env) (run_id : ℕ) (t : RunTransition) (token : ℕ) (db : Db) {row : RunRow}
    → lookup run_id db.runs ≡ some row
    → is_terminal row.run.status ≡ true
    → (transaction env (λ e. transition_run e run_id t token) db).1 ≡ db
transition_run_terminal env run_id t token db {row} found ended =
    transaction_rolls_back env (λ e. transition_run e run_id t token) db
      λ r db' h.
        let (row', done) = transition_run-Transitioned (inside env) run_id t token db db' r h in
        terminal_absorbs row row' t.target found done.found ended done.checked.allowed
