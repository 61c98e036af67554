-- ===== src/State/Steps/Outcome.antt =====
-- What `create_step` and `transition_step` have checked and written when they return.
use my_ai_agent_fullstack_tr.Base.{
  Bool, Option, arith, contains, false, is_some, list_eq, nat_eq, none, option_eq, pair_eq, refl,
  some, subst, sym, true, ℕ, ◌+◌, ◌/=◌, ◌||◌, ◌∙◌, ◌≡◌,
}
use my_ai_agent_fullstack_tr.Domain.Models.{Step, is_truthy, step_is_valid}
use my_ai_agent_fullstack_tr.Domain.Status.{StepStatus, step_status_eq}
use my_ai_agent_fullstack_tr.State.Access.{
  append_event-returns, get_run-returns, touch_run, update_run-returns, verify_lease-returns,
}
use my_ai_agent_fullstack_tr.State.Steps.{
  StepTransition, check_step, create_step, step_transitions, transition_step, updated_step,
}
use my_ai_agent_fullstack_tr.Storage.Exec.{ok, ◌>>=◌}
use my_ai_agent_fullstack_tr.Storage.Inversion.{
  bind-returns, gets-returns, modify-returns, or_raise-returns, pure-returns, raise_if-returns,
  validated-returns,
}
use my_ai_agent_fullstack_tr.Storage.Rows.{Db, Env, RunRow, StepRow}
use my_ai_agent_fullstack_tr.Storage.Table.{Table, lookup, put}

-- The conditions that `check_step` lets pass.
pub record Checked (row : StepRow) (t : StepTransition) : Type 0 where
  pub revision_fits : row.revision ≡ t.expected_revision
  pub status_fits : row.step.status ≡ t.expected_status
  pub allowed : contains t.target (step_transitions row.step.status) ≡ true
  pub coded : t.target ≡ StepStatus.failed → is_truthy t.error_code ≡ true

check_step-returns :
    (row : StepRow) (t : StepTransition) (db db' : Db)
    → check_step row t db ≡ (ok tt, db')
    → Checked row t × (db' ≡ db)
unfolding check_step ◌>>=◌
check_step-returns row t db db' h = ground arith

-- The row of the step before, and the database after.
pub record Transitioned (step_id : ℕ) (t : StepTransition) (now : ℕ) (db : Db) (s : Step) (db' : Db)
    (row : StepRow) : Type 0 where
  pub found : lookup step_id db.steps ≡ some row
  pub checked : Checked row t
  pub returned : s ≡ updated_step row.step t now
  pub valid : step_is_valid s ≡ true
  pub steps_after :
      db'.steps ≡ put step_id (record { step = s; revision = row.revision + 1 }) db.steps

steps_written :
    (step_id : ℕ) (row : StepRow) (db d1 d2 d3 d4 d5 db' : Db) (runs : Table ℕ RunRow) (s u : Step)
    → d1 ≡ db
    → d2 ≡ d1
    → d3 ≡ record d2 {
      steps = put step_id (record { step = u; revision = row.revision + 1 }) d2.steps;
    }
    → d4 ≡ record d3 { runs = runs }
    → d5 ≡ record d4 { audit_events = d5.audit_events }
    → s ≡ u
    → db' ≡ d5
    → db'.steps ≡ put step_id (record { step = s; revision = row.revision + 1 }) db.steps
steps_written step_id row db d1 d2 d3 d4 d5 db' runs s u e1 e2 e3 e4 e5 e6 e7 = ground arith

touch_run-returns :
    (run_id revision now : ℕ) (step : Option ℕ) (db db' : Db)
    → touch_run run_id revision now step db ≡ (ok tt, db')
    → (runs : Table ℕ RunRow) × (db' ≡ record db { runs = runs })
unfolding touch_run
touch_run-returns run_id revision now none db db' h =
    let (_, _, _, e) = update_run-returns run_id revision _ db db' h in (_, e)
touch_run-returns run_id revision now (some step_id) db db' h =
    let (_, _, _, e) = update_run-returns run_id revision _ db db' h in (_, e)

pub transition_step-Transitioned :
    (env : Env) (step_id : ℕ) (t : StepTransition) (token : ℕ) (db db' : Db) (s : Step)
    → transition_step env step_id t token db ≡ (ok s, db')
    → (row : StepRow) × Transitioned step_id t (env.clock 0) db s db' row
unfolding transition_step
transition_step-Transitioned env step_id t token db db' s h =
    let (row, found, h1) = or_raise-returns _ _ _ db (gets-returns _ _ db h) in
    let (_, d1, b1, h2) = bind-returns _ _ db h1 in
    let (_, _, _, _, e1) = verify_lease-returns env row.step.run_id token (env.clock 0) db d1 b1 in
    let (_, h3) = validated-returns _ _ d1 h2 in
    let (_, d2, b2, h4) = bind-returns _ _ d1 h3 in
    let (checked, e2) = check_step-returns row t d1 d2 b2 in
    let (valid, h5) = validated-returns _ _ d2 h4 in
    let h6 = modify-returns _ _ d2 h5 in
    let (run_row, _, h7) = or_raise-returns _ _ _ _ (gets-returns _ _ _ h6) in
    let (_, d4, b4, h8) = bind-returns _ _ _ h7 in
    let (runs, e4) = touch_run-returns row.step.run_id run_row.revision (env.clock 0) _ _ d4 b4 in
    let (_, d5, b5, h9) = bind-returns _ _ d4 h8 in
    let e5 = append_event-returns _ _ d4 d5 b5 in
    let (returned, e6) = pure-returns _ d5 h9 in
    (
      row,
      record {
        found = found;
        checked = checked;
        returned = returned;
        valid = subst (λ (x : Step). step_is_valid x ≡ true) (sym returned) valid;
        steps_after =
            steps_written step_id row db d1 d2 _ d4 d5 db' runs s _ e1 e2 refl e4 e5 returned e6;
      },
    )

-- What a `create_step` that returned has checked and written.
pub record Created (s : Step) (db db' : Db) : Type 0 where
  pub absent : lookup s.step_id db.steps ≡ none
  pub planned : s.status ≡ StepStatus.planned
  pub no_end : s.ended_at ≡ none
  pub steps_after : db'.steps ≡ put s.step_id (record { step = s; revision = 0 }) db.steps

planned_fits :
    (s : Step)
    → (s.status /= StepStatus.planned || is_some s.ended_at) ≡ false
    → (s.status ≡ StepStatus.planned) × (s.ended_at ≡ none)
planned_fits s h = (ground (arith, h), ground (arith, h))

is_free : {A : Type 0} (o : Option A) (b : Bool) → (is_some o || b) ≡ false → o ≡ none
is_free none b h = refl
is_free (some a) b h = cc

steps_created :
    (s : Step) (db d1 d2 d3 d4 d5 db' : Db) (runs : Table ℕ RunRow)
    → d1 ≡ db
    → d2 ≡ d1
    → d3 ≡ record d2 { steps = put s.step_id (record { step = s; revision = 0 }) d2.steps }
    → d4 ≡ record d3 { runs = runs }
    → d5 ≡ record d4 { audit_events = d5.audit_events }
    → db' ≡ d5
    → db'.steps ≡ put s.step_id (record { step = s; revision = 0 }) db.steps
steps_created s db d1 d2 d3 d4 d5 db' runs e1 e2 e3 e4 e5 e6 = ground arith

pub create_step-Created :
    (env : Env) (s s' : Step) (expected token : ℕ) (db db' : Db)
    → create_step env s expected token db ≡ (ok s', db')
    → Created s db db'
unfolding create_step
create_step-Created env s s' expected token db db' h =
    let (_, d1, b1, h1) = bind-returns _ _ db h in
    let (_, _, _, _, e1) = verify_lease-returns env s.run_id token (env.clock 0) db d1 b1 in
    let (row, d2, b2, h2) = bind-returns _ _ d1 h1 in
    let (_, _, e2) = get_run-returns s.run_id d1 d2 row b2 in
    let (_, h3) = raise_if-returns _ _ _ d2 h2 in
    let (_, h4) = raise_if-returns _ _ _ d2 h3 in
    let (fresh, h5) = raise_if-returns _ _ _ d2 h4 in
    let (planned, no_end) = planned_fits s fresh in
    let (free, h6) = raise_if-returns _ _ _ d2 (gets-returns _ _ d2 h5) in
    let h7 = modify-returns _ _ d2 h6 in
    let (_, d4, b4, h8) = bind-returns _ _ _ h7 in
    let (runs, e4) = touch_run-returns s.run_id expected (env.clock 0) (some s.step_id) _ d4 b4 in
    let (_, d5, b5, h9) = bind-returns _ _ d4 h8 in
    let e5 = append_event-returns _ _ d4 d5 b5 in
    let (_, e6) = pure-returns _ d5 h9 in
    record {
      absent = subst (λ (d : Db). lookup s.step_id d.steps ≡ none) (e2 ∙ e1) (is_free _ _ free);
      planned = planned;
      no_end = no_end;
      steps_after = steps_created s db d1 d2 _ d4 d5 db' runs e1 e2 refl e4 e5 e6;
    }
