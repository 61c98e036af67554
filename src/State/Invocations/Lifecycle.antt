-- ===== src/State/Invocations/Lifecycle.antt =====
-- The lifecycle of the stored tool invocations.
use my_ai_agent_fullstack_tr.Base.{
  Bool, Option, [], ap, arith, if◌then◌else◌, inl, inr, is_some, list_eq, nat_eq, none, option_eq,
  pair_eq, refl, some, subst, sym, true, ℕ, ◌+◌, ◌∙◌, ◌∷◌, ◌≡◌, ◌≤◌, ◌⊎◌,
}
use my_ai_agent_fullstack_tr.Domain.Models.{
  StableCode, ToolInvocation, error, is_truthy, stop, text,
}
use my_ai_agent_fullstack_tr.Domain.Status.{InvocationStatus, invocation_status_eq}
use my_ai_agent_fullstack_tr.State.Invocations.{
  InvocationTransition, create_invocation, is_failure, is_result, read_code, read_summary,
  transition_invocation, updated_invocation,
}
use my_ai_agent_fullstack_tr.State.Invocations.Outcome.{
  Checked, create_invocation-Created, transition_invocation-Transitioned,
}
use my_ai_agent_fullstack_tr.Storage.Atomic.{inside, transaction_keeps, transaction_rolls_back}
use my_ai_agent_fullstack_tr.Storage.Exec.{ok, transaction}
use my_ai_agent_fullstack_tr.Storage.Rows.{Db, Env, ToolCallRow}
use my_ai_agent_fullstack_tr.Storage.Table.{Table, lookup, lookup-put, lookup-put_self, put}

-- The diagram of a call, for one that is idempotent or not: it starts once, and ends once. Only an
-- idempotent call may time out.
pub data Proceeds : Bool → InvocationStatus → InvocationStatus → Type 0 where
  begin : {b : Bool} → Proceeds b InvocationStatus.prepared InvocationStatus.started
  succeed : {b : Bool} → Proceeds b InvocationStatus.started InvocationStatus.succeeded
  fail : {b : Bool} → Proceeds b InvocationStatus.started InvocationStatus.failed
  lose : {b : Bool} → Proceeds b InvocationStatus.started InvocationStatus.unknown_result
  time_out : Proceeds true InvocationStatus.started InvocationStatus.timed_out

Checked-Proceeds :
    (b : Bool) (s t : InvocationStatus)
    → ((s ≡ InvocationStatus.prepared) × (t ≡ InvocationStatus.started))
      ⊎ ((s ≡ InvocationStatus.started) × (is_result t ≡ true))
    → (t ≡ InvocationStatus.timed_out → b ≡ true)
    → Proceeds b s t
Checked-Proceeds b s t (inl (p, q)) r =
    subst (λ (x : InvocationStatus). Proceeds b x t) (sym p)
      (subst (λ (y : InvocationStatus). Proceeds b InvocationStatus.prepared y) (sym q) begin)
Checked-Proceeds b s t (inr (p, q)) r =
    subst (λ (x : InvocationStatus). Proceeds b x t) (sym p) (ends b t q r)
  where
    ends :
        (b : Bool) (t : InvocationStatus)
        → is_result t ≡ true
        → (t ≡ InvocationStatus.timed_out → b ≡ true)
        → Proceeds b InvocationStatus.started t
    ends b InvocationStatus.prepared q r = cc
    ends b InvocationStatus.started q r = cc
    ends b InvocationStatus.succeeded q r = succeed
    ends b InvocationStatus.failed q r = fail
    ends b InvocationStatus.timed_out q r =
        subst (λ (x : Bool). Proceeds x InvocationStatus.started InvocationStatus.timed_out)
          (sym (r refl)) time_out
    ends b InvocationStatus.unknown_result q r = lose

-- A transition that returns follows an edge of the diagram: the stored call goes from its status to
-- the status asked for, and all that the transition does not set is kept.
pub transition_invocation-Proceeds :
    (env : Env) (run_id tool_call_id : ℕ) (t : InvocationTransition) (token : ℕ) (db db' : Db)
    (i : ToolInvocation)
    → transition_invocation env run_id tool_call_id t token db ≡ (ok i, db')
    → (before : ToolCallRow) × (lookup (run_id, tool_call_id) db.tool_calls ≡ some before)
      × Proceeds before.invocation.idempotent before.invocation.status t.target
      × (i ≡ record before.invocation {
        status = t.target;
        result_summary = read_summary t.result_summary;
        error_code = read_code t.error_code;
        updated_at = env.clock 0;
      })
      × (lookup (run_id, tool_call_id) db'.tool_calls
          ≡ some (record { invocation = i; revision = t.expected_revision + 1 }))
unfolding updated_invocation
transition_invocation-Proceeds env run_id tool_call_id t token db db' i h =
    let (row, done) =
      transition_invocation-Transitioned env run_id tool_call_id t token db db' i h in
    let key : ℕ × ℕ = (run_id, tool_call_id) in
    let after : ToolCallRow = record { invocation = i; revision = row.revision + 1 } in
    (
      row,
      done.found,
      Checked-Proceeds row.invocation.idempotent row.invocation.status t.target
          done.checked.proceeds done.checked.repeatable,
      done.returned,
      subst (λ (x : Table (ℕ × ℕ) ToolCallRow). lookup key x ≡ some after) (sym done.calls_after)
            (lookup-put_self key after db.tool_calls)
          ∙ ap (λ (n : ℕ). some (record { invocation = i; revision = n + 1 }))
              done.checked.revision_fits,
    )

-- How far a call has come.
abbrev pub rank : InvocationStatus → ℕ
rank InvocationStatus.prepared = 0
rank InvocationStatus.started = 1
rank InvocationStatus.succeeded = 2
rank InvocationStatus.failed = 2
rank InvocationStatus.timed_out = 2
rank InvocationStatus.unknown_result = 2

-- A stored call in order: its revision counts its transitions, of which there are two at most, and one
-- more if an approval refers to it; a failure has a code, a success has none, and only an idempotent
-- call has timed out.
pub record IsOrdered (row : ToolCallRow) : Type 0 where
  pub at_least : rank row.invocation.status ≤ row.revision
  pub at_most :
      row.revision
      ≤ rank row.invocation.status + (if is_some row.invocation.approval_id then 1 else 0)
  pub coded : is_failure row.invocation.status ≡ true → is_truthy row.invocation.error_code ≡ true
  pub clean : row.invocation.status ≡ InvocationStatus.succeeded → row.invocation.error_code ≡ none
  pub repeatable :
      row.invocation.status ≡ InvocationStatus.timed_out → row.invocation.idempotent ≡ true

pub record AllOrdered (db : Db) : Type 0 where
  pub at : (key : ℕ × ℕ) (row : ToolCallRow) → lookup key db.tool_calls ≡ some row → IsOrdered row

ordered_put :
    (key : ℕ × ℕ) (row : ToolCallRow) (db db' : Db)
    → AllOrdered db
    → IsOrdered row
    → db'.tool_calls ≡ put key row db.tool_calls
    → AllOrdered db'
ordered_put key row db db' all this e = record {
  at = λ k r h. ground (arith, e, lookup-put key k row db.tool_calls, all.at k r, this);
}

rank_next :
    (s t : InvocationStatus)
    → ((s ≡ InvocationStatus.prepared) × (t ≡ InvocationStatus.started))
      ⊎ ((s ≡ InvocationStatus.started) × (is_result t ≡ true))
    → rank s + 1 ≡ rank t
rank_next s t h = ground arith

read_code-is_truthy : (c : Option StableCode) → is_truthy c ≡ true → is_truthy (read_code c) ≡ true
read_code-is_truthy none h = h
read_code-is_truthy (some (error c)) h = h
read_code-is_truthy (some (stop r)) h = h
read_code-is_truthy (some (text [])) h = cc
read_code-is_truthy (some (text (c ∷ t))) h = h

updated-IsOrdered :
    (row : ToolCallRow) (t : InvocationTransition) (now : ℕ)
    → IsOrdered row
    → Checked row t
    → IsOrdered (record {
      invocation = updated_invocation row.invocation t now;
      revision = row.revision + 1;
    })
unfolding updated_invocation
updated-IsOrdered row t now this fits = record {
  at_least = omega (arith, this.at_least, rank_next row.invocation.status t.target fits.proceeds);
  at_most = omega (arith, this.at_most, rank_next row.invocation.status t.target fits.proceeds);
  coded = λ h. read_code-is_truthy t.error_code (fits.coded h);
  clean = λ h. ap read_code (fits.no_error h);
  repeatable = fits.repeatable;
}

-- In every transaction, whatever its outcome, a transition keeps all stored calls in order.
pub transition_invocation-AllOrdered :
    (env : Env) (run_id tool_call_id : ℕ) (t : InvocationTransition) (token : ℕ) (db : Db)
    → AllOrdered db
    → AllOrdered (transaction env (λ e. transition_invocation e run_id tool_call_id t token) db).1
transition_invocation-AllOrdered env run_id tool_call_id t token db all =
    transaction_keeps AllOrdered env (λ e. transition_invocation e run_id tool_call_id t token) db
      all
      λ i db' h.
        let (row, done) =
          transition_invocation-Transitioned (inside env) run_id tool_call_id t token db db' i h in
        let key : ℕ × ℕ = (run_id, tool_call_id) in
        ordered_put key (record { invocation = i; revision = row.revision + 1 }) db db' all
          (subst
            (λ (x : ToolInvocation).
              IsOrdered (record { invocation = x; revision = row.revision + 1 }))
            (sym done.returned)
            (updated-IsOrdered row t (env.clock 0) (all.at key row done.found) done.checked))
          done.calls_after

prepared-IsOrdered :
    (i : ToolInvocation)
    → i.status ≡ InvocationStatus.prepared
    → IsOrdered (record { invocation = i; revision = 0 })
prepared-IsOrdered i h = ground arith

-- In every transaction, whatever its outcome, the creation of a call keeps all stored calls in order:
-- it stores a prepared call, under a key that was free.
pub create_invocation-AllOrdered :
    (env : Env) (i : ToolInvocation) (expected token : ℕ) (db : Db)
    → AllOrdered db
    → AllOrdered (transaction env (λ e. create_invocation e i expected token) db).1
create_invocation-AllOrdered env i expected token db all =
    transaction_keeps AllOrdered env (λ e. create_invocation e i expected token) db all
      λ i' db' h.
        let (done, _) = create_invocation-Created (inside env) i i' expected token db db' h in
        ordered_put (i.run_id, i.tool_call_id) (record { invocation = i; revision = 0 }) db db' all
          (prepared-IsOrdered i done.status_fits) done.calls_after

result_absorbs :
    (row row' : ToolCallRow) {found : Option ToolCallRow} (t : InvocationStatus)
    → found ≡ some row
    → found ≡ some row'
    → is_result row.invocation.status ≡ true
    → ¬ (
        ((row'.invocation.status ≡ InvocationStatus.prepared) × (t ≡ InvocationStatus.started))
        ⊎ ((row'.invocation.status ≡ InvocationStatus.started) × (is_result t ≡ true)))
result_absorbs row row' t p q ended h = ground arith

-- A call that has a result keeps it: no transition of it returns, and its transaction leaves the
-- database unchanged.
transition_invocation_result :
    (env : Env) (run_id tool_call_id : ℕ) (t : InvocationTransition) (token : ℕ) (db : Db)
    {row : ToolCallRow}
    → lookup (run_id, tool_call_id) db.tool_calls ≡ some row
    → is_result row.invocation.status ≡ true
    → (transaction env (λ e. transition_invocation e run_id tool_call_id t token) db).1 ≡ db
transition_invocation_result env run_id tool_call_id t token db {row} found ended =
    transaction_rolls_back env (λ e. transition_invocation e run_id tool_call_id t token) db
      λ i db' h.
        let (row', done) =
          transition_invocation-Transitioned (inside env) run_id tool_call_id t token db db' i h in
        result_absorbs row row' t.target found done.found ended done.checked.proceeds
