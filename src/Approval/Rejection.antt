-- ===== src/Approval/Rejection.antt =====
-- A rejection ends the run in the same transaction.
use my_ai_agent_fullstack_tr.Base.{
  Option, ap, arith, list_eq, nat_eq, option_eq, pair_eq, some, subst, sym, ℕ, ◌+◌, ◌∙◌, ◌≡◌,
}
use my_ai_agent_fullstack_tr.Approval.{stop_waiting}
use my_ai_agent_fullstack_tr.Approval.Decide.{Approver, decide, stop_rejected}
use my_ai_agent_fullstack_tr.Approval.Decision.{
  check_decision-returns, decide-Decided, pending_live,
}
use my_ai_agent_fullstack_tr.Approval.Expiry.{not_expired, required_approval-returns}
use my_ai_agent_fullstack_tr.Domain.Models.{Approval, Run, Text}
use my_ai_agent_fullstack_tr.Domain.Status.{
  AcceptanceStatus, ApprovalDecision, RunStatus, StopReason, StopReason-discrete,
  acceptance_status_eq, approval_decision_eq, run_status_eq, stop_reason_eq,
}
use my_ai_agent_fullstack_tr.State.Runs.{acceptance_after, stored_run, updated_run}
use my_ai_agent_fullstack_tr.State.Runs.Outcome.{transition_run-Transitioned}
use my_ai_agent_fullstack_tr.Storage.Exec.{ok}
use my_ai_agent_fullstack_tr.Storage.Inversion.{bind-returns, pure-returns}
use my_ai_agent_fullstack_tr.Storage.Rows.{Db, Env, RunRow, later}
use my_ai_agent_fullstack_tr.Storage.Table.{lookup, lookup-put_self}

-- A run that has been stopped because its approval was rejected.
pub record Rejected (run_id : ℕ) (db : Db) : Type 0 where
  pub row : RunRow
  pub found : lookup run_id db.runs ≡ some row
  pub stopped : row.run.status ≡ RunStatus.stopped
  pub reason : row.run.stop_reason ≡ some StopReason.approval_rejected
  pub acceptance : row.run.acceptance_status ≡ AcceptanceStatus.not_evaluated

stop_waiting_fields :
    (r : Run) (current : Run) (now revision clock : ℕ)
    → r ≡ updated_run current (stop_waiting StopReason.approval_rejected now revision) clock
    → ((stored_run r current).status ≡ RunStatus.stopped)
      × ((stored_run r current).stop_reason ≡ some StopReason.approval_rejected)
      × ((stored_run r current).acceptance_status ≡ AcceptanceStatus.not_evaluated)
unfolding updated_run stored_run acceptance_after StopReason-discrete
stop_waiting_fields r current now revision clock e = ground (arith, e)

stop_rejected-Rejected :
    (env : Env) (a : Approval) (now token : ℕ) (db db' : Db)
    → stop_rejected env ApprovalDecision.reject a now token db ≡ (ok tt, db')
    → Rejected a.run_id db'
unfolding stop_rejected
stop_rejected-Rejected env a now token db db' h =
    let (row, d1, b1, h1) = bind-returns _ _ db h in
    let (r, d2, b2, h2) = bind-returns _ _ d1 h1 in
    let t = stop_waiting StopReason.approval_rejected now row.revision in
    let (before, done) = transition_run-Transitioned env a.run_id t token d1 d2 r b2 in
    let (_, e) = pure-returns tt d2 h2 in
    let after : RunRow = record { run = stored_run r before.run; revision = before.revision + 1 } in
    let (stopped, reason, acceptance) =
      stop_waiting_fields r before.run now row.revision (env.clock 0) done.returned in
    record {
      row = after;
      found =
          ap (λ (d : Db). lookup a.run_id d.runs) (e ∙ done.after)
          ∙ lookup-put_self a.run_id after d1.runs;
      stopped = stopped;
      reason = reason;
      acceptance = acceptance;
    }

-- A rejection that returns has stopped the run of the approval: the run's stored row is stopped since
-- the approval was rejected, and its acceptance is not evaluated.
pub decide-Rejected :
    (env : Env) (approval_id revision : ℕ) (approver : Approver) (reason : Option Text) (token : ℕ)
    (db db' : Db) (a' : Approval)
    → decide env approval_id revision approver ApprovalDecision.reject reason token db
      ≡ (ok a', db')
    → Rejected a'.run_id db'
unfolding decide
decide-Rejected env approval_id revision approver reason token db db' a' h =
    let now = env.clock 0 in
    let (first, _, decided) =
      decide-Decided env approval_id revision approver ApprovalDecision.reject reason token db db'
        a' h in
    let (row, d1, b1, h1) = bind-returns _ _ db h in
    let (found, _, _) = required_approval-returns env approval_id db d1 row b1 in
    let (_, d2, b2, h2) = bind-returns _ _ d1 h1 in
    let (a, d3, b3, h3) = bind-returns _ _ d2 h2 in
    let (_, d4, b4, h4) = bind-returns _ _ d3 h3 in
    let (fit, _) = check_decision-returns env a revision approver d3 d4 b4 in
    let (same, _, _) =
      not_expired (later 1 env) row a token d2 d3 (pending_live a fit.pending) b3 in
    let (_, d5, _, h5) = bind-returns _ _ d4 h4 in
    let (_, d6, _, h6) = bind-returns _ _ d5 h5 in
    let (_, d7, _, h7) = bind-returns _ _ d6 h6 in
    let (_, d8, b8, h8) = bind-returns _ _ d7 h7 in
    let (_, _, e9) = required_approval-returns env approval_id d8 db' a' h8 in
    let rejected = stop_rejected-Rejected (later 3 env) a now token d7 d8 b8 in
    let run_same : a.run_id ≡ a'.run_id =
      ap (λ (x : Approval). x.run_id) same
      ∙ same_run row first found decided.found
      ∙ sym (ap (λ (x : Approval). x.run_id) decided.returned) in
    subst (λ (k : ℕ). Rejected k db') run_same
      (subst (λ (d : Db). Rejected a.run_id d) (sym e9) rejected)
  where
    same_run :
        (x y : Approval) {o : Option Approval} → o ≡ some x → o ≡ some y → x.run_id ≡ y.run_id
    same_run x y p q = ground (arith, p, q)
