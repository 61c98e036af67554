-- ===== src/Approval/Decision.antt =====
-- What a decision needs: another person with an allowed role, in time, while the run waits.
use my_ai_agent_fullstack_tr.Base.{
  Option, ap, arith, list_eq, nat_eq, option_eq, pair_eq, some, subst, true, ℕ, ◌+◌, ◌<◌, ◌∙◌, ◌≡◌,
  ◌≢◌,
}
use my_ai_agent_fullstack_tr.Approval.{approval_is_valid, stable_code, stop_waiting}
use my_ai_agent_fullstack_tr.Approval.Decide.{
  Approver, check_decision, decide, decided_status, decision_reason, holds_role, stop_rejected,
}
use my_ai_agent_fullstack_tr.Approval.Expiry.{
  not_expired, required_approval-returns, transition_run-approvals, update_approval-returns,
  written_back,
}
use my_ai_agent_fullstack_tr.Domain.ErrorCode.{approval_conflict}
use my_ai_agent_fullstack_tr.Domain.Models.{Approval, StableCode, Text}
use my_ai_agent_fullstack_tr.Domain.Status.{
  ApprovalDecision, ApprovalStatus, RunStatus, StopReason, approval_decision_eq, approval_status_eq,
  run_status_eq, stop_reason_eq,
}
use my_ai_agent_fullstack_tr.State.Access.{
  append_event-returns, get_run-returns, verify_lease-returns,
}
use my_ai_agent_fullstack_tr.Storage.Exec.{ok, ◌>>=◌}
use my_ai_agent_fullstack_tr.Storage.Inversion.{
  bind-returns, pure-returns, raise_if-ends, raise_if-returns,
}
use my_ai_agent_fullstack_tr.Storage.Rows.{Db, Env, RunRow, later}
use my_ai_agent_fullstack_tr.Storage.Table.{lookup, put}

-- What `check_decision` lets pass.
pub record Fit (env : Env) (a : Approval) (revision : ℕ) (approver : Approver) (db : Db)
    : Type 0 where
  pub pending : a.status ≡ ApprovalStatus.pending
  pub revision_fits : a.revision ≡ revision
  pub actor_fits : approver.actor ≡ env.actor
  pub other : approver.actor ≢ a.requested_by
  pub role : holds_role env a.allowed_approver_roles approver.roles ≡ true
  pub waiting :
      (row : RunRow) × (lookup a.run_id db.runs ≡ some row)
      × (row.run.status ≡ RunStatus.waiting_approval)

pub check_decision-returns :
    (env : Env) (a : Approval) (revision : ℕ) (approver : Approver) (db db' : Db)
    → check_decision env a revision approver db ≡ (ok tt, db')
    → Fit env a revision approver db × (db' ≡ db)
unfolding check_decision
check_decision-returns env a revision approver db db' h =
    let (_, h1) = raise_if-returns _ _ _ db h in
    let (revision_fits, h2) = raise_if-returns _ _ _ db h1 in
    let (pending, h3) = raise_if-returns _ _ _ db h2 in
    let (actor_fits, h4) = raise_if-returns _ _ _ db h3 in
    let (run_row, d1, b1, h5) = bind-returns _ _ db h4 in
    let (found, _, e1) = get_run-returns a.run_id db d1 run_row b1 in
    let (waiting, h6) = raise_if-returns _ _ _ d1 h5 in
    let (other, h7) = raise_if-returns _ _ _ d1 h6 in
    let (role, e2) = raise_if-ends _ _ d1 h7 in
    (
      record {
        pending = ground (arith, pending);
        revision_fits = ground (arith, revision_fits);
        actor_fits = ground (arith, actor_fits);
        other = λ e. ground (arith, other, e);
        role = ground (arith, role);
        waiting = (run_row, found, ground (arith, waiting));
      },
      e2 ∙ e1,
    )

-- The approval as a decision leaves it.
abbrev pub after_decision : Approval → ApprovalDecision → Approver → ℕ → Approval
after_decision a decision approver now = record a {
  status = decided_status decision;
  decided_at = some now;
  decided_by = some approver.actor;
  revision = a.revision + 1;
}

-- A decision that was in order: the approval was pending and not yet due, the decider is the actor of
-- the transaction, is not who asked, and holds one of the allowed roles; the run waits.
pub record Decided (env : Env) (approval_id : ℕ) (approver : Approver) (decision : ApprovalDecision)
    (db : Db) (a' : Approval) (db' : Db) (a : Approval) : Type 0 where
  pub found : lookup approval_id db.approvals ≡ some a
  pub pending : a.status ≡ ApprovalStatus.pending
  pub live : env.clock 1 < a.expires_at
  pub actor_fits : approver.actor ≡ env.actor
  pub other : approver.actor ≢ a.requested_by
  pub role : holds_role env a.allowed_approver_roles approver.roles ≡ true
  pub waiting :
      (row : RunRow) × (lookup a.run_id db.runs ≡ some row)
      × (row.run.status ≡ RunStatus.waiting_approval)
  pub returned : a' ≡ after_decision a decision approver (env.clock 0)
  pub valid : approval_is_valid env a' ≡ true
  pub approvals_after : db'.approvals ≡ put approval_id a' db.approvals

decision_reason-db :
    (env : Env) (decision : ApprovalDecision) (reason : Option Text) (db db' : Db)
    (code : Option StableCode)
    → decision_reason env decision reason db ≡ (ok code, db')
    → db' ≡ db
unfolding decision_reason stable_code ◌>>=◌
decision_reason-db env decision reason db db' code h = ground arith

stop_rejected-approvals :
    (env : Env) (decision : ApprovalDecision) (a : Approval) (now token : ℕ) (db db' : Db)
    → stop_rejected env decision a now token db ≡ (ok tt, db')
    → db'.approvals ≡ db.approvals
unfolding stop_rejected
stop_rejected-approvals env ApprovalDecision.approve a now token db db' h =
    ap (λ (d : Db). d.approvals) (pure-returns _ db h).1
stop_rejected-approvals env ApprovalDecision.reject a now token db db' h =
    let (row, d1, b1, h1) = bind-returns _ _ db h in
    let (_, _, e1) = get_run-returns a.run_id db d1 row b1 in
    let (r, d2, b2, h2) = bind-returns _ _ d1 h1 in
    ap (λ (d : Db). d.approvals) (pure-returns _ d2 h2).1
    ∙ transition_run-approvals env a.run_id
        (stop_waiting StopReason.approval_rejected now row.revision) token d1 d2 r b2
    ∙ ap (λ (d : Db). d.approvals) e1

pub pending_live :
    (a : Approval) → a.status ≡ ApprovalStatus.pending → a.status ≢ ApprovalStatus.expired
pending_live a p e = ground (arith, p, e)

-- A decision that returns was in order: the stored approval had the expected revision, was pending and
-- not yet due, its run waited, and the approver is the actor of the transaction, is not who asked for
-- the approval, and holds one of the allowed roles. What is stored then is that approval, decided.
pub decide-Decided :
    (env : Env) (approval_id revision : ℕ) (approver : Approver) (decision : ApprovalDecision)
    (reason : Option Text) (token : ℕ) (db db' : Db) (a' : Approval)
    → decide env approval_id revision approver decision reason token db ≡ (ok a', db')
    → (a : Approval) × (a.revision ≡ revision)
      × Decided env approval_id approver decision db a' db' a
unfolding decide
decide-Decided env approval_id revision approver decision reason token db db' a' h =
    let now = env.clock 0 in
    let (row, d1, b1, h1) = bind-returns _ _ db h in
    let (found, _, e1) = required_approval-returns env approval_id db d1 row b1 in
    let (_, d2, b2, h2) = bind-returns _ _ d1 h1 in
    let (_, _, _, _, e2) = verify_lease-returns env row.run_id token now d1 d2 b2 in
    let (a, d3, b3, h3) = bind-returns _ _ d2 h2 in
    let (_, d4, b4, h4) = bind-returns _ _ d3 h3 in
    let (fit, e4) = check_decision-returns env a revision approver d3 d4 b4 in
    let (same, e3, live) =
      not_expired (later 1 env) row a token d2 d3 (pending_live a fit.pending) b3 in
    let (code, d5, b5, h5) = bind-returns _ _ d4 h4 in
    let e5 = decision_reason-db env decision reason d4 d5 code b5 in
    let (_, d6, b6, h6) = bind-returns _ _ d5 h5 in
    let (row', found', _, _, e6) =
      update_approval-returns approval_id _ approval_conflict now
        (λ r. record r {
          status = decided_status decision;
          decided_at = some now;
          decided_by = some approver.actor;
        })
        d5 d6 b6 in
    let (_, d7, b7, h7) = bind-returns _ _ d6 h6 in
    let e7 = append_event-returns _ _ d6 d7 b7 in
    let (_, d8, b8, h8) = bind-returns _ _ d7 h7 in
    let e8 = stop_rejected-approvals (later 3 env) decision a now token d7 d8 b8 in
    let (read, valid, e9) = required_approval-returns env approval_id d8 db' a' h8 in
    let start3 = e3 ∙ e2 ∙ e1 in
    let (returned, after) =
      written_back approval_id
        (λ r. record r {
          status = decided_status decision;
          decided_at = some now;
          decided_by = some approver.actor;
        })
        db d5 d6 d7 d8 db' row row' a' (e5 ∙ e4 ∙ start3) found found' e6 e7 e8 read e9 in
    let fits = subst (λ (x : Approval). Fit env x revision approver d3) same fit in
    let fits0 = subst (λ (d : Db). Fit env row revision approver d) start3 fits in
    (
      row,
      fits0.revision_fits,
      record {
        found = found;
        pending = fits0.pending;
        live = live (ground (arith, fits0.pending));
        actor_fits = fits0.actor_fits;
        other = fits0.other;
        role = fits0.role;
        waiting = fits0.waiting;
        returned = returned;
        valid = valid;
        approvals_after = after;
      },
    )
