-- ===== src/Approval/Execution.antt =====
-- What the claim and the consumption of an approval need.
use my_ai_agent_fullstack_tr.Base.{
  ap, arith, equals, exceeds, list_eq, nat_eq, option_eq, pair_eq, refl, some, subst, sym, true, ℕ,
  ◌+◌, ◌<◌, ◌∙◌, ◌≡◌, ◌≢◌,
}
use my_ai_agent_fullstack_tr.Approval.{approval_is_valid, current_binding, validate_current_binding}
use my_ai_agent_fullstack_tr.Approval.Claim.{claim}
use my_ai_agent_fullstack_tr.Approval.Create.{bound}
use my_ai_agent_fullstack_tr.Approval.Expiry.{
  not_expired, required_approval-returns, update_approval-returns, written_back,
}
use my_ai_agent_fullstack_tr.Domain.ErrorCode.{approval_already_claimed}
use my_ai_agent_fullstack_tr.Domain.Models.{Approval}
use my_ai_agent_fullstack_tr.Domain.Status.{
  ApprovalStatus, RunStatus, approval_status_eq, run_status_eq,
}
use my_ai_agent_fullstack_tr.State.Access.{
  append_event-returns, get_run-returns, verify_lease-returns,
}
use my_ai_agent_fullstack_tr.Storage.Exec.{ok}
use my_ai_agent_fullstack_tr.Storage.Inversion.{
  bind-returns, gets-returns, or_raise-returns, raise_if-ends, raise_if-returns,
}
use my_ai_agent_fullstack_tr.Storage.Rows.{Db, Env, RunRow, ToolCallRow, later}
use my_ai_agent_fullstack_tr.Storage.Table.{lookup, put}

-- The context in which an approval may be executed is the one to which it was bound.
pub record IsBound (env : Env) (a : Approval) (db : Db) : Type 0 where
  pub run_row : RunRow
  pub call : ToolCallRow
  pub run_found : lookup a.run_id db.runs ≡ some run_row
  pub call_found : lookup (a.run_id, a.tool_call_id) db.tool_calls ≡ some call
  pub digest_fits :
      env.binding_digest (current_binding a run_row.run call.invocation) ≡ a.binding_digest
  pub args_fit : call.invocation.args_digest ≡ a.canonical_args_digest
  pub refers : call.invocation.approval_id ≡ some a.approval_id

pub validate_current_binding-returns :
    (env : Env) (a : Approval) (db db' : Db)
    → validate_current_binding env a db ≡ (ok tt, db')
    → IsBound env a db × (db' ≡ db)
unfolding validate_current_binding
validate_current_binding-returns env a db db' h =
    let (run_row, d1, b1, h1) = bind-returns _ _ db h in
    let (found, _, e1) = get_run-returns a.run_id db d1 run_row b1 in
    let (call, call_found, h2) = or_raise-returns _ _ _ d1 (gets-returns _ _ d1 h1) in
    let (fits, e2) = raise_if-ends _ _ d1 h2 in
    (
      record {
        run_row = run_row;
        call = call;
        run_found = found;
        call_found =
            subst (λ (d : Db). lookup (a.run_id, a.tool_call_id) d.tool_calls ≡ some call) e1
              call_found;
        digest_fits = ground (arith, fits);
        args_fit = ground (arith, fits);
        refers = ground (arith, fits);
      },
      e2 ∙ e1,
    )

-- The approval as a claim leaves it.
abbrev pub after_claim : Approval → ℕ → ℕ → Approval
after_claim a execution_intent_id now = record a {
  status = ApprovalStatus.claimed;
  claimed_at = some now;
  execution_intent_id = some execution_intent_id;
  revision = a.revision + 1;
}

-- A claim that was in order.
pub record Claimed (env : Env) (approval_id execution_intent_id : ℕ) (db : Db) (a' : Approval)
    (db' : Db) (a : Approval) : Type 0 where
  pub found : lookup approval_id db.approvals ≡ some a
  pub approved : a.status ≡ ApprovalStatus.approved
  pub live : env.clock 0 < a.expires_at
  pub intent_fits : execution_intent_id ≡ a.tool_call_id
  pub waiting :
      (row : RunRow) × (lookup a.run_id db.runs ≡ some row)
      × (row.run.status ≡ RunStatus.waiting_approval)
  pub bound : IsBound env a db
  pub returned : a' ≡ after_claim a execution_intent_id (env.clock 0)
  pub valid : approval_is_valid env a' ≡ true
  pub approvals_after : db'.approvals ≡ put approval_id a' db.approvals

approved_live :
    (a : Approval) → a.status ≡ ApprovalStatus.approved → a.status ≢ ApprovalStatus.expired
approved_live a p e = ground (arith, p, e)

-- A claim that returns was in order: the stored approval had the expected revision, was approved and
-- not yet due, the intent is its call, its run waited, and the run and the call are those that it was
-- bound to. What is stored then is that approval, claimed for the call.
pub claim-Claimed :
    (env : Env) (approval_id revision intent token : ℕ) (db db' : Db) (a' : Approval)
    → claim env approval_id revision intent token db ≡ (ok a', db')
    → (a : Approval) × (a.revision ≡ revision) × Claimed env approval_id intent db a' db' a
unfolding claim
claim-Claimed env approval_id revision intent token db db' a' h =
    let now = env.clock 0 in
    let (row, d1, b1, h1) = bind-returns _ _ db h in
    let (found, _, e1) = required_approval-returns env approval_id db d1 row b1 in
    let (_, d2, b2, h2) = bind-returns _ _ d1 h1 in
    let (_, _, _, _, e2) = verify_lease-returns env row.run_id token now d1 d2 b2 in
    let (a, d3, b3, h3) = bind-returns _ _ d2 h2 in
    let (_, h4) = raise_if-returns _ _ _ d3 h3 in
    let (_, h5) = raise_if-returns _ _ _ d3 h4 in
    let (revision_fits, h6) = raise_if-returns _ _ _ d3 h5 in
    let (approved, h7) = raise_if-returns _ _ _ d3 h6 in
    let (live, h8) = raise_if-returns _ _ _ d3 h7 in
    let (intent_fits, h9) = raise_if-returns _ _ _ d3 h8 in
    let is_approved = equals _ _ approved in
    let (same, e3, _) =
      not_expired (later 1 env) row a token d2 d3 (approved_live a is_approved) b3 in
    let (run_row, d4, b4, h10) = bind-returns _ _ d3 h9 in
    let (run_found, _, e4) = get_run-returns a.run_id d3 d4 run_row b4 in
    let (waiting, h11) = raise_if-returns _ _ _ d4 h10 in
    let (_, d5, b5, h12) = bind-returns _ _ d4 h11 in
    let (bound, e5) = validate_current_binding-returns env a d4 d5 b5 in
    let (_, d6, b6, h13) = bind-returns _ _ d5 h12 in
    let (row', found', _, _, e6) =
      update_approval-returns approval_id _ approval_already_claimed now
        (λ r. record r {
          status = ApprovalStatus.claimed;
          claimed_at = some now;
          execution_intent_id = some intent;
        })
        d5 d6 b6 in
    let (_, d7, b7, h14) = bind-returns _ _ d6 h13 in
    let e7 = append_event-returns _ _ d6 d7 b7 in
    let (read, valid, e9) = required_approval-returns env approval_id d7 db' a' h14 in
    let start = e3 ∙ e2 ∙ e1 in
    let (returned, after) =
      written_back approval_id
        (λ r. record r {
          status = ApprovalStatus.claimed;
          claimed_at = some now;
          execution_intent_id = some intent;
        })
        db d5 d6 d7 d7 db' row row' a' (e5 ∙ e4 ∙ start) found found' e6 e7 refl read e9 in
    let waits : (r : RunRow) × (lookup a.run_id d3.runs ≡ some r)
        × (r.run.status ≡ RunStatus.waiting_approval) =
      (run_row, run_found, equals _ _ waiting) in
    (
      row,
      sym (ap (λ (x : Approval). x.revision) same) ∙ equals _ _ revision_fits,
      record {
        found = found;
        approved = sym (ap (λ (x : Approval). x.status) same) ∙ is_approved;
        live = subst (λ (x : Approval). now < x.expires_at) same (exceeds _ _ live);
        intent_fits = equals _ _ intent_fits ∙ ap (λ (x : Approval). x.tool_call_id) same;
        waiting =
            subst
              (λ (d : Db).
                (r : RunRow) × (lookup row.run_id d.runs ≡ some r)
                × (r.run.status ≡ RunStatus.waiting_approval))
              start
              (subst
                (λ (x : Approval).
                  (r : RunRow) × (lookup x.run_id d3.runs ≡ some r)
                  × (r.run.status ≡ RunStatus.waiting_approval))
                same waits);
        bound =
            subst (λ (d : Db). IsBound env row d) (e4 ∙ start)
              (subst (λ (x : Approval). IsBound env x d4) same bound);
        returned = returned;
        valid = valid;
        approvals_after = after;
      },
    )
