-- ===== src/State/Steps/Lifecycle.antt =====
-- The lifecycle of the stored steps.
use my_ai_agent_fullstack_tr.Base.{
  ap, arith, contains, is_some, list_eq, nat_eq, none, option_eq, pair_eq, refl, some, subst, sym,
  true, ℕ, ◌+◌, ◌∙◌, ◌≡◌,
}
use my_ai_agent_fullstack_tr.Domain.Models.{Step, step_is_valid}
use my_ai_agent_fullstack_tr.Domain.Status.{StepStatus, StepStatus-discrete, step_status_eq}
use my_ai_agent_fullstack_tr.State.Steps.{
  StepTransition, create_step, ends_step, step_transitions, transition_step, updated_step,
}
use my_ai_agent_fullstack_tr.State.Steps.Outcome.{
  Transitioned, create_step-Created, transition_step-Transitioned,
}
use my_ai_agent_fullstack_tr.Storage.Atomic.{inside, transaction_keeps}
use my_ai_agent_fullstack_tr.Storage.Exec.{ok, transaction}
use my_ai_agent_fullstack_tr.Storage.Rows.{Db, Env, StepRow}
use my_ai_agent_fullstack_tr.Storage.Table.{Table, lookup, lookup-put, lookup-put_self, put}

-- How far a step has come.
abbrev pub rank : StepStatus → ℕ
rank StepStatus.planned = 0
rank StepStatus.running = 1
rank StepStatus.completed = 2
rank StepStatus.failed = 2

-- The diagram: a step is begun, and is completed or fails.
pub data Progresses : StepStatus → StepStatus → Type 0 where
  begin : Progresses StepStatus.planned StepStatus.running
  complete : Progresses StepStatus.running StepStatus.completed
  fail : Progresses StepStatus.running StepStatus.failed

allowed-Progresses : (s t : StepStatus) → contains t (step_transitions s) ≡ true → Progresses s t
unfolding step_transitions StepStatus-discrete
allowed-Progresses StepStatus.planned StepStatus.running h = begin
allowed-Progresses StepStatus.running StepStatus.completed h = complete
allowed-Progresses StepStatus.running StepStatus.failed h = fail
allowed-Progresses _ _ h = cc

-- A transition that returns follows an edge of the diagram: the stored step had the status and the
-- revision that the caller expected, goes along an edge from its status to the one that the caller
-- asked for, its revision goes up by one, and of its other fields only the end may change.
pub transition_step-Progresses :
    (env : Env) (step_id : ℕ) (t : StepTransition) (token : ℕ) (db db' : Db) (s : Step)
    → transition_step env step_id t token db ≡ (ok s, db')
    → (before : StepRow) × (lookup step_id db.steps ≡ some before)
      × (before.step.status ≡ t.expected_status)
      × (before.revision ≡ t.expected_revision)
      × Progresses before.step.status t.target
      × (s ≡ record before.step { status = t.target; ended_at = s.ended_at })
      × (lookup step_id db'.steps ≡ some (record { step = s; revision = before.revision + 1 }))
unfolding updated_step
transition_step-Progresses env step_id t token db db' s h =
    let (row, done) = transition_step-Transitioned env step_id t token db db' s h in
    let after : StepRow = record { step = s; revision = row.revision + 1 } in
    (
      row,
      done.found,
      done.checked.status_fits,
      done.checked.revision_fits,
      allowed-Progresses row.step.status t.target done.checked.allowed,
      subst (λ (x : Step). x ≡ record row.step { status = t.target; ended_at = x.ended_at })
          (sym done.returned) refl,
      subst (λ (x : Table ℕ StepRow). lookup step_id x ≡ some after) (sym done.steps_after)
          (lookup-put_self step_id after db.steps),
    )

-- A stored step in order: its revision counts its transitions, of which there are two at most, a step
-- that has ended has an end, and no end precedes the start.
pub record IsInOrder (row : StepRow) : Type 0 where
  pub counted : row.revision ≡ rank row.step.status
  pub ended : ends_step row.step.status ≡ true → is_some row.step.ended_at ≡ true
  pub timed : step_is_valid row.step ≡ true

pub record AllInOrder (db : Db) : Type 0 where
  pub at : (step_id : ℕ) (row : StepRow) → lookup step_id db.steps ≡ some row → IsInOrder row

ordered_put :
    (step_id : ℕ) (row : StepRow) (db db' : Db)
    → AllInOrder db
    → IsInOrder row
    → db'.steps ≡ put step_id row db.steps
    → AllInOrder db'
ordered_put step_id row db db' all this e = record {
  at = λ k r h. ground (arith, e, lookup-put step_id k row db.steps, all.at k r, this);
}

rank_next : {s t : StepStatus} → Progresses s t → rank s + 1 ≡ rank t
rank_next begin = refl
rank_next complete = refl
rank_next fail = refl

updated-ended :
    (current : Step) (t : StepTransition) (now : ℕ)
    → ends_step t.target ≡ true
    → is_some (updated_step current t now).ended_at ≡ true
unfolding updated_step
updated-ended current t now h = ground (arith, h)

updated-status :
    (current : Step) (t : StepTransition) (now : ℕ) → (updated_step current t now).status ≡ t.target
unfolding updated_step
updated-status current t now = refl

updated-IsInOrder :
    (step_id : ℕ) (t : StepTransition) (now : ℕ) (db db' : Db) (s : Step) (row : StepRow)
    → IsInOrder row
    → Transitioned step_id t now db s db' row
    → IsInOrder (record { step = s; revision = row.revision + 1 })
updated-IsInOrder step_id t now db db' s row this done =
    let status = ap (λ (x : Step). x.status) done.returned ∙ updated-status row.step t now in
    let edge = allowed-Progresses row.step.status t.target done.checked.allowed in
    record {
      counted = ap (λ (n : ℕ). n + 1) this.counted ∙ rank_next edge ∙ ap rank (sym status);
      ended = λ h.
          subst (λ (x : Step). is_some x.ended_at ≡ true) (sym done.returned)
            (updated-ended row.step t now (ap ends_step (sym status) ∙ h));
      timed = done.valid;
    }

-- In every transaction, whatever its outcome, a transition keeps all stored steps in order.
pub transition_step-AllInOrder :
    (env : Env) (step_id : ℕ) (t : StepTransition) (token : ℕ) (db : Db)
    → AllInOrder db
    → AllInOrder (transaction env (λ e. transition_step e step_id t token) db).1
transition_step-AllInOrder env step_id t token db all =
    transaction_keeps AllInOrder env (λ e. transition_step e step_id t token) db all
      λ s db' h.
        let (row, done) = transition_step-Transitioned (inside env) step_id t token db db' s h in
        ordered_put step_id (record { step = s; revision = row.revision + 1 }) db db' all
          (updated-IsInOrder step_id t (env.clock 0) db db' s row (all.at step_id row done.found)
            done)
          done.steps_after

planned-IsInOrder :
    (s : Step)
    → s.status ≡ StepStatus.planned
    → s.ended_at ≡ none
    → IsInOrder (record { step = s; revision = 0 })
unfolding step_is_valid
planned-IsInOrder s h e = ground (arith, h, e)

-- In every transaction, whatever its outcome, the creation of a step keeps all stored steps in order:
-- it stores a planned step, under an identifier that was free.
pub create_step-AllInOrder :
    (env : Env) (s : Step) (expected token : ℕ) (db : Db)
    → AllInOrder db
    → AllInOrder (transaction env (λ e. create_step e s expected token) db).1
create_step-AllInOrder env s expected token db all =
    transaction_keeps AllInOrder env (λ e. create_step e s expected token) db all
      λ s' db' h.
        let done = create_step-Created (inside env) s s' expected token db db' h in
        ordered_put s.step_id (record { step = s; revision = 0 }) db db' all
          (planned-IsInOrder s done.planned done.no_end) done.steps_after
