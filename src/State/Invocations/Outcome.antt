-- ===== src/State/Invocations/Outcome.antt =====
-- What `create_invocation` and `transition_invocation` have checked and written when they return.
use my_ai_agent_fullstack_tr.Base.{
  Option, [], arith, false, is_some, list_eq, nat_eq, none, option_eq, pair_eq, refl, some, subst,
  true, ℕ, ◌+◌, ◌/=◌, ◌||◌, ◌∙◌, ◌≡◌, ◌⊎◌,
}
use my_ai_agent_fullstack_tr.Domain.Models.{ToolInvocation, is_truthy}
use my_ai_agent_fullstack_tr.Domain.Status.{InvocationStatus, invocation_status_eq}
use my_ai_agent_fullstack_tr.State.Access.{
  append_event-returns, get_run-returns, touch_run, update_run-returns, verify_lease-returns,
}
use my_ai_agent_fullstack_tr.State.Invocations.{
  InvocationTransition, check_invocation, create_invocation, is_failure, is_result,
  transition_invocation, updated_invocation,
}
use my_ai_agent_fullstack_tr.Storage.Exec.{ok, ◌>>=◌}
use my_ai_agent_fullstack_tr.Storage.Inversion.{
  bind-returns, gets-returns, modify-returns, or_raise-returns, pure-returns, raise_if-returns,
  validated-returns,
}
use my_ai_agent_fullstack_tr.Storage.Rows.{Db, Env, RunRow, ToolCallRow}
use my_ai_agent_fullstack_tr.Storage.Table.{Table, lookup, put}

-- The conditions that `check_invocation` lets pass.
pub record Checked (row : ToolCallRow) (t : InvocationTransition) : Type 0 where
  pub revision_fits : row.revision ≡ t.expected_revision
  pub status_fits : row.invocation.status ≡ t.expected_status
  pub proceeds :
      ((row.invocation.status ≡ InvocationStatus.prepared) × (t.target ≡ InvocationStatus.started))
      ⊎ ((row.invocation.status ≡ InvocationStatus.started) × (is_result t.target ≡ true))
  pub repeatable : t.target ≡ InvocationStatus.timed_out → row.invocation.idempotent ≡ true
  pub no_error : t.target ≡ InvocationStatus.succeeded → t.error_code ≡ none
  pub coded : is_failure t.target ≡ true → is_truthy t.error_code ≡ true

check_invocation-returns :
    (row : ToolCallRow) (t : InvocationTransition) (db db' : Db)
    → check_invocation row t db ≡ (ok tt, db')
    → Checked row t × (db' ≡ db)
unfolding check_invocation ◌>>=◌
check_invocation-returns row t db db' h = ground arith

-- The row of the call before, and the database after.
pub record Transitioned (key : ℕ × ℕ) (t : InvocationTransition) (now : ℕ) (db : Db)
    (i : ToolInvocation) (db' : Db) (row : ToolCallRow) : Type 0 where
  pub found : lookup key db.tool_calls ≡ some row
  pub checked : Checked row t
  pub returned : i ≡ updated_invocation row.invocation t now
  pub calls_after :
      db'.tool_calls
      ≡ put key (record { invocation = i; revision = row.revision + 1 }) db.tool_calls

calls_written :
    (key : ℕ × ℕ) (row : ToolCallRow) (db d1 d2 d3 d4 d5 db' : Db) (runs : Table ℕ RunRow)
    (i j : ToolInvocation)
    → d1 ≡ db
    → d2 ≡ d1
    → d3 ≡ record d2 {
      tool_calls = put key (record { invocation = j; revision = row.revision + 1 }) d2.tool_calls;
    }
    → d4 ≡ record d3 { runs = runs }
    → d5 ≡ record d4 { audit_events = d5.audit_events }
    → i ≡ j
    → db' ≡ d5
    → db'.tool_calls
      ≡ put key (record { invocation = i; revision = row.revision + 1 }) db.tool_calls
calls_written key row db d1 d2 d3 d4 d5 db' runs i j e1 e2 e3 e4 e5 e6 e7 = ground arith

pub transition_invocation-Transitioned :
    (env : Env) (run_id tool_call_id : ℕ) (t : InvocationTransition) (token : ℕ) (db db' : Db)
    (i : ToolInvocation)
    → transition_invocation env run_id tool_call_id t token db ≡ (ok i, db')
    → (row : ToolCallRow) × Transitioned (run_id, tool_call_id) t (env.clock 0) db i db' row
unfolding transition_invocation touch_run
transition_invocation-Transitioned env run_id tool_call_id t token db db' i h =
    let (_, d1, b1, h1) = bind-returns _ _ db h in
    let (_, _, _, _, e1) = verify_lease-returns env run_id token (env.clock 0) db d1 b1 in
    let (row, found, h2) = or_raise-returns _ _ _ d1 (gets-returns _ _ d1 h1) in
    let (_, h2') = validated-returns _ _ d1 h2 in
    let (_, d2, b2, h3) = bind-returns _ _ d1 h2' in
    let (checked, e2) = check_invocation-returns row t d1 d2 b2 in
    let h4 = modify-returns _ _ d2 h3 in
    let (run_row, _, h5) = or_raise-returns _ _ _ _ (gets-returns _ _ _ h4) in
    let (_, d4, b4, h6) = bind-returns _ _ _ h5 in
    let (_, _, _, e4) = update_run-returns run_id run_row.revision _ _ d4 b4 in
    let (_, h6') = validated-returns _ _ d4 h6 in
    let (_, d5, b5, h7) = bind-returns _ _ d4 h6' in
    let e5 = append_event-returns _ _ d4 d5 b5 in
    let (returned, e6) = pure-returns _ d5 h7 in
    (
      row,
      record {
        found = subst (λ (d : Db). lookup (run_id, tool_call_id) d.tool_calls ≡ some row) e1 found;
        checked = checked;
        returned = returned;
        calls_after =
            calls_written (run_id, tool_call_id) row db d1 d2 _ d4 d5 db' _ i _ e1 e2 refl e4 e5
              returned e6;
      },
    )

-- What a `create_invocation` that returned has checked and written.
pub record Created (key : ℕ × ℕ) (i : ToolInvocation) (db db' : Db) : Type 0 where
  pub absent : lookup key db.tool_calls ≡ none
  pub status_fits : i.status ≡ InvocationStatus.prepared
  pub calls_after : db'.tool_calls ≡ put key (record { invocation = i; revision = 0 }) db.tool_calls

is_absent : {A : Type 0} (o : Option A) → is_some o ≡ false → o ≡ none
is_absent none h = refl
is_absent (some a) h = cc

prepared_fits :
    (i : ToolInvocation)
    → (i.status /= InvocationStatus.prepared || i.evidence_ids /= []) ≡ false
    → i.status ≡ InvocationStatus.prepared
prepared_fits i h = ground (arith, h)

calls_created :
    (key : ℕ × ℕ) (i : ToolInvocation) (db d1 d2 d3 d4 d5 db' : Db) (runs : Table ℕ RunRow)
    → d1 ≡ db
    → d2 ≡ d1
    → d3
      ≡ record d2 { tool_calls = put key (record { invocation = i; revision = 0 }) d2.tool_calls }
    → d4 ≡ record d3 { runs = runs }
    → d5 ≡ record d4 { audit_events = d5.audit_events }
    → db' ≡ d5
    → db'.tool_calls ≡ put key (record { invocation = i; revision = 0 }) db.tool_calls
calls_created key i db d1 d2 d3 d4 d5 db' runs e1 e2 e3 e4 e5 e6 = ground arith

pub create_invocation-Created :
    (env : Env) (i i' : ToolInvocation) (expected token : ℕ) (db db' : Db)
    → create_invocation env i expected token db ≡ (ok i', db')
    → Created (i.run_id, i.tool_call_id) i db db' × (i' ≡ i)
unfolding create_invocation touch_run
create_invocation-Created env i i' expected token db db' h =
    let (_, d1, b1, h1) = bind-returns _ _ db h in
    let (_, _, _, _, e1) = verify_lease-returns env i.run_id token (env.clock 0) db d1 b1 in
    let (row, d2, b2, h2) = bind-returns _ _ d1 h1 in
    let (_, _, e2) = get_run-returns i.run_id d1 d2 row b2 in
    let (_, h3) = raise_if-returns _ _ _ d2 h2 in
    let (_, h4) = raise_if-returns _ _ _ d2 h3 in
    let (fresh, h5) = raise_if-returns _ _ _ d2 h4 in
    let (_, _, h6) = or_raise-returns _ _ _ d2 (gets-returns _ _ d2 h5) in
    let (_, h7) = raise_if-returns _ _ _ d2 h6 in
    let (absent, h8) = raise_if-returns _ _ _ d2 (gets-returns _ _ d2 h7) in
    let h9 = modify-returns _ _ d2 h8 in
    let (_, d4, b4, h10) = bind-returns _ _ _ h9 in
    let (_, _, _, e4) = update_run-returns i.run_id expected _ _ d4 b4 in
    let (_, d5, b5, h11) = bind-returns _ _ d4 h10 in
    let e5 = append_event-returns _ _ d4 d5 b5 in
    let (returned, e6) = pure-returns _ d5 h11 in
    (
      record {
        absent =
            subst (λ (d : Db). lookup (i.run_id, i.tool_call_id) d.tool_calls ≡ none) (e2 ∙ e1)
              (is_absent _ absent);
        status_fits = prepared_fits i fresh;
        calls_after =
            calls_created (i.run_id, i.tool_call_id) i db d1 d2 _ d4 d5 db' _ e1 e2 refl e4 e5 e6;
      },
      returned,
    )
