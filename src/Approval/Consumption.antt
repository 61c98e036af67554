-- ===== src/Approval/Consumption.antt =====
-- What the consumption of an approval needs.
use my_ai_agent_fullstack_tr.Base.{
  Bool, Option, arith, equals, false, list_eq, nat_eq, not, option_eq, pair_eq, refl, some, subst,
  true, ℕ, ◌+◌, ◌/=◌, ◌||◌, ◌∙◌, ◌≡◌,
}
use my_ai_agent_fullstack_tr.Approval.{approval_is_valid, stable_code}
use my_ai_agent_fullstack_tr.Approval.Claim.{
  check_consumption, consume, is_deterministic, optional_stable_code,
}
use my_ai_agent_fullstack_tr.Approval.Expiry.{
  required_approval-returns, update_approval-returns, written_back,
}
use my_ai_agent_fullstack_tr.Domain.ErrorCode.{approval_conflict}
use my_ai_agent_fullstack_tr.Domain.Models.{Approval, StableCode, Text}
use my_ai_agent_fullstack_tr.Domain.Status.{
  ApprovalStatus, InvocationStatus, RunStatus, approval_status_eq, invocation_status_eq,
  run_status_eq,
}
use my_ai_agent_fullstack_tr.State.Access.{
  append_event-returns, get_run-returns, verify_lease-returns,
}
use my_ai_agent_fullstack_tr.Storage.Exec.{ok, ◌>>=◌}
use my_ai_agent_fullstack_tr.Storage.Inversion.{
  bind-returns, gets-returns, or_raise-returns, raise_if-ends, raise_if-returns,
}
use my_ai_agent_fullstack_tr.Storage.Rows.{Db, Env, RunRow, ToolCallRow}
use my_ai_agent_fullstack_tr.Storage.Table.{lookup, put}

-- The approval as its consumption leaves it.
abbrev pub after_consume : Approval → Option StableCode → ℕ → Approval
after_consume a code now = record a {
  status = ApprovalStatus.consumed;
  consumed_at = some now;
  consumption_code = code;
  revision = a.revision + 1;
}

-- What `check_consumption` lets pass.
pub record Fit (a : Approval) (result : InvocationStatus) (db : Db) : Type 0 where
  pub claimed : a.status ≡ ApprovalStatus.claimed
  pub intent_fits : a.execution_intent_id ≡ some a.tool_call_id
  pub deterministic : is_deterministic result ≡ true
  pub has_result :
      (call : ToolCallRow) × (lookup (a.run_id, a.tool_call_id) db.tool_calls ≡ some call)
      × (call.invocation.status ≡ result)
  pub running :
      (row : RunRow) × (lookup a.run_id db.runs ≡ some row) × (row.run.status ≡ RunStatus.running)

-- A consumption that was in order: the approval had been claimed for its call, and the call has the
-- result, one of those that say what happened, while the run goes on.
pub record Consumed (env : Env) (approval_id : ℕ) (result : InvocationStatus) (db : Db)
    (a' : Approval) (db' : Db) (a : Approval) : Type 0 where
  pub code : Option StableCode
  pub found : lookup approval_id db.approvals ≡ some a
  pub fit : Fit a result db
  pub returned : a' ≡ after_consume a code (env.clock 0)
  pub valid : approval_is_valid env a' ≡ true
  pub approvals_after : db'.approvals ≡ put approval_id a' db.approvals

claim_fits :
    (a : Approval) (intent : ℕ)
    → (a.status /= ApprovalStatus.claimed
        || a.execution_intent_id /= some intent
        || intent /= a.tool_call_id)
      ≡ false
    → (a.status ≡ ApprovalStatus.claimed) × (a.execution_intent_id ≡ some a.tool_call_id)
claim_fits a intent h = (ground (arith, h), ground (arith, h))

holds : (b : Bool) → not b ≡ false → b ≡ true
holds b h = ground (arith, h)

optional_stable_code-db :
    (env : Env) (value : Option Text) (db db' : Db) (code : Option StableCode)
    → optional_stable_code env value db ≡ (ok code, db')
    → db' ≡ db
unfolding optional_stable_code stable_code ◌>>=◌
optional_stable_code-db env value db db' code h = ground arith

check_consumption-returns :
    (a : Approval) (revision intent : ℕ) (result : InvocationStatus) (db db' : Db)
    → check_consumption a revision intent result db ≡ (ok tt, db')
    → (a.revision ≡ revision) × Fit a result db × (db' ≡ db)
unfolding check_consumption
check_consumption-returns a revision intent result db db' h =
    let (revision_fits, h1) = raise_if-returns _ _ _ db h in
    let (fits, h2) = raise_if-returns _ _ _ db h1 in
    let (claimed, intent_fits) = claim_fits a intent fits in
    let (run_row, d1, b1, h3) = bind-returns _ _ db h2 in
    let (run_found, _, e1) = get_run-returns a.run_id db d1 run_row b1 in
    let (running, h4) = raise_if-returns _ _ _ d1 h3 in
    let (deterministic, h5) = raise_if-returns _ _ _ d1 h4 in
    let (call, call_found, h6) = or_raise-returns _ _ _ d1 (gets-returns _ _ d1 h5) in
    let (result_fits, e2) = raise_if-ends _ _ d1 h6 in
    (
      equals _ _ revision_fits,
      record {
        claimed = claimed;
        intent_fits = intent_fits;
        deterministic = holds _ deterministic;
        has_result = (
          call,
          subst (λ (d : Db). lookup (a.run_id, a.tool_call_id) d.tool_calls ≡ some call) e1
              call_found,
          equals _ _ result_fits,
        );
        running = (run_row, run_found, equals _ _ running);
      },
      e2 ∙ e1,
    )

-- A consumption that returns was in order: the stored approval had the expected revision and was
-- claimed for its call, the call has the given result, which is not an unknown one, and the run goes
-- on. What is stored then is that approval, consumed.
pub consume-Consumed :
    (env : Env) (approval_id revision intent : ℕ) (result : InvocationStatus) (value : Option Text)
    (token : ℕ) (db db' : Db) (a' : Approval)
    → consume env approval_id revision intent result value token db ≡ (ok a', db')
    → (a : Approval) × (a.revision ≡ revision) × Consumed env approval_id result db a' db' a
unfolding consume
consume-Consumed env approval_id revision intent result value token db db' a' h =
    let now = env.clock 0 in
    let (a, d1, b1, h1) = bind-returns _ _ db h in
    let (found, _, e1) = required_approval-returns env approval_id db d1 a b1 in
    let (_, d2, b2, h2) = bind-returns _ _ d1 h1 in
    let (_, _, _, _, e2) = verify_lease-returns env a.run_id token now d1 d2 b2 in
    let (_, d3, b3, h3) = bind-returns _ _ d2 h2 in
    let (revision_fits, fit, e3) = check_consumption-returns a revision intent result d2 d3 b3 in
    let (code, d5, b5, h4) = bind-returns _ _ d3 h3 in
    let e5 = optional_stable_code-db env value d3 d5 code b5 in
    let (_, d6, b6, h5) = bind-returns _ _ d5 h4 in
    let (row', found', _, _, e6) =
      update_approval-returns approval_id _ approval_conflict now (λ r. after_consume r code now) d5
        d6 b6 in
    let (_, d7, b7, h6) = bind-returns _ _ d6 h5 in
    let e7 = append_event-returns _ _ d6 d7 b7 in
    let (read, valid, e9) = required_approval-returns env approval_id d7 db' a' h6 in
    let start = e2 ∙ e1 in
    let (returned, after) =
      written_back approval_id (λ r. after_consume r code now) db d5 d6 d7 d7 db' a row' a'
        (e5 ∙ e3 ∙ start) found found' e6 e7 refl read e9 in
    (
      a,
      revision_fits,
      record {
        code = code;
        found = found;
        fit = subst (λ (d : Db). Fit a result d) start fit;
        returned = returned;
        valid = valid;
        approvals_after = after;
      },
    )
