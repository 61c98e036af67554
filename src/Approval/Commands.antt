-- ===== src/Approval/Commands.antt =====
-- The operations of the approvals' store as one type, and what each does to the stored approvals.
use my_ai_agent_fullstack_tr.Base.{
  Bool, Option, ap, arith, false, is_some, list_eq, nat_eq, none, option_eq, pair_eq, refl, some,
  subst, ℕ, ◌||◌, ◌∙◌, ◌≡◌,
}
use my_ai_agent_fullstack_tr.Approval.{load}
use my_ai_agent_fullstack_tr.Approval.Claim.{claim, consume, invalidate, resume_claim}
use my_ai_agent_fullstack_tr.Approval.Consumption.{after_consume, consume-Consumed}
use my_ai_agent_fullstack_tr.Approval.Create.{
  ApprovalRequest, bound, create, handle_duplicate, request_new, requested, resolve_request,
}
use my_ai_agent_fullstack_tr.Approval.Decide.{Approver, decide}
use my_ai_agent_fullstack_tr.Approval.Decision.{decide-Decided}
use my_ai_agent_fullstack_tr.Approval.Diagram.{
  Advances, Decided-Evolves, EachEvolves, Evolves, Invalidated-Evolves, SameBinding,
  load-EachEvolves, moved, put-EachEvolves, unchanged-EachEvolves,
}
use my_ai_agent_fullstack_tr.Approval.Execution.{
  after_claim, claim-Claimed, validate_current_binding-returns,
}
use my_ai_agent_fullstack_tr.Approval.Expiry.{required_approval-returns}
use my_ai_agent_fullstack_tr.Approval.Invalidation.{invalidate-Invalidated}
use my_ai_agent_fullstack_tr.Domain.Models.{Approval, Text}
use my_ai_agent_fullstack_tr.Domain.Status.{
  ApprovalDecision, InvocationStatus, approval_decision_eq, invocation_status_eq,
}
use my_ai_agent_fullstack_tr.State.Access.{
  append_event-returns, get_run-returns, verify_lease-returns,
}
use my_ai_agent_fullstack_tr.Storage.Atomic.{inside, transaction_keeps}
use my_ai_agent_fullstack_tr.Storage.Exec.{Exec, ok, transaction}
use my_ai_agent_fullstack_tr.Storage.Inversion.{
  bind-returns, gets-returns, modify-returns, or_raise-returns, pure-returns, raise_if-returns,
}
use my_ai_agent_fullstack_tr.Storage.Rows.{Db, Env, RunRow, ToolCallRow, later}
use my_ai_agent_fullstack_tr.Storage.Table.{Table, lookup, lookup-put, put}

resume_claim-db :
    (env : Env) (approval_id revision intent token : ℕ) (db db' : Db) (a' : Approval)
    → resume_claim env approval_id revision intent token db ≡ (ok a', db')
    → db'.approvals ≡ db.approvals
unfolding resume_claim
resume_claim-db env approval_id revision intent token db db' a' h =
    let (a, d1, b1, h1) = bind-returns _ _ db h in
    let (_, _, e1) = required_approval-returns env approval_id db d1 a b1 in
    let (_, d2, b2, h2) = bind-returns _ _ d1 h1 in
    let (_, _, _, _, e2) = verify_lease-returns env a.run_id token (env.clock 0) d1 d2 b2 in
    let (_, d3, b3, h3) = bind-returns _ _ d2 h2 in
    let (_, e3) = validate_current_binding-returns env a d2 d3 b3 in
    let (_, h4) = raise_if-returns _ _ _ d3 h3 in
    let (_, h5) = raise_if-returns _ _ _ d3 h4 in
    let (run_row, d4, b4, h6) = bind-returns _ _ d3 h5 in
    let (_, _, e4) = get_run-returns a.run_id d3 d4 run_row b4 in
    let (_, h7) = raise_if-returns _ _ _ d4 h6 in
    let (_, _, h8) = or_raise-returns _ _ _ d4 (gets-returns _ _ d4 h7) in
    let (_, h9) = raise_if-returns _ _ _ d4 h8 in
    let (_, d5, b5, h10) = bind-returns _ _ d4 h9 in
    let e5 = append_event-returns _ _ d4 d5 b5 in
    let (_, e6) = pure-returns a d5 h10 in
    let field : Db → Table ℕ Approval = λ d. d.approvals in
    ap field e6 ∙ ap field e5 ∙ ap field (e4 ∙ e3 ∙ e2 ∙ e1)

handle_duplicate-db :
    (env : Env) (a : Approval) (request : ApprovalRequest) (digest now : ℕ) (db db' : Db)
    (a' : Approval)
    → handle_duplicate env a request digest now db ≡ (ok a', db')
    → db' ≡ db
unfolding handle_duplicate
handle_duplicate-db env a request digest now db db' a' h =
    let (_, h1) = raise_if-returns _ _ _ db h in
    let (_, h2) = raise_if-returns _ _ _ db h1 in
    let (_, h3) = raise_if-returns _ _ _ db h2 in
    let (_, h4) = raise_if-returns _ _ _ db h3 in
    let (row, d1, b1, h5) = bind-returns _ _ db h4 in
    let (_, _, e1) = get_run-returns a.run_id db d1 row b1 in
    let (_, h6) = raise_if-returns _ _ _ d1 h5 in
    let (_, d2, b2, h7) = bind-returns _ _ d1 h6 in
    let (_, e2) = validate_current_binding-returns env a d1 d2 b2 in
    (pure-returns a d2 h7).1 ∙ e2 ∙ e1

-- The insertion of an approval under an identifier that is free.
fresh_first :
    (id : ℕ) (a : Approval) (t t1 t2 : Table ℕ Approval)
    → lookup id t ≡ none
    → t1 ≡ put id a t
    → EachEvolves t1 t2
    → EachEvolves t t2
unfolding EachEvolves
fresh_first id a t t1 t2 free e step k b h =
    step k b (ground (arith, e, h, free, lookup-put id k a t))

is_free : (o : Option Approval) (b : Bool) → (is_some o || b) ≡ false → o ≡ none
is_free none b h = refl
is_free (some a) b h = cc

request_new-EachEvolves :
    (env : Env) (request : ApprovalRequest) (run_row : RunRow) (call : ToolCallRow) (token : ℕ)
    (db db' : Db) (a' : Approval)
    → request_new env request run_row call token db ≡ (ok a', db')
    → EachEvolves db.approvals db'.approvals
unfolding request_new
request_new-EachEvolves env request run_row call token db db' a' h =
    let a =
      bound env (requested env request run_row.run call.invocation (env.clock 0)) run_row.run
        call.invocation in
    let (_, h1) = raise_if-returns _ _ _ db h in
    let (_, h2) = raise_if-returns _ _ _ db h1 in
    let (free, h3) = raise_if-returns _ _ _ db (gets-returns _ _ db h2) in
    let h4 = modify-returns _ _ db h3 in
    let (_, h5) = raise_if-returns _ _ _ _ h4 in
    let h6 = modify-returns _ _ _ h5 in
    let (_, d1, b1, h7) = bind-returns _ _ _ h6 in
    let e1 = append_event-returns _ _ _ d1 b1 in
    fresh_first a.approval_id a db.approvals d1.approvals db'.approvals (is_free _ _ free)
      (ap (λ (d : Db). d.approvals) e1)
      (load-EachEvolves (later 2 env) a.approval_id token d1 db' a' h7)

create-EachEvolves :
    (env : Env) (request : ApprovalRequest) (token : ℕ) (db db' : Db) (a' : Approval)
    → create env request token db ≡ (ok a', db')
    → EachEvolves db.approvals db'.approvals
unfolding create
create-EachEvolves env request token db db' a' h =
    let (_, h1) = raise_if-returns _ _ _ db h in
    let (_, d1, b1, h2) = bind-returns _ _ db h1 in
    let (_, _, _, _, e1) = verify_lease-returns env request.run_id token (env.clock 0) db d1 b1 in
    let (run_row, d2, b2, h3) = bind-returns _ _ d1 h2 in
    let (_, _, e2) = get_run-returns request.run_id d1 d2 run_row b2 in
    let (call, _, h4) = or_raise-returns _ _ _ d2 (gets-returns _ _ d2 h3) in
    let (_, h5) = raise_if-returns _ _ _ d2 h4 in
    let h6 = gets-returns _ _ d2 h5 in
    subst (λ (d : Db). EachEvolves d.approvals db'.approvals) (e2 ∙ e1)
      (split run_row call _ d2 _ h6)
  where
    split :
        (run_row : RunRow) (call : ToolCallRow) (digest : ℕ) (d : Db) (existing : Option Approval)
        → resolve_request env request run_row call digest token existing d ≡ (ok a', db')
        → EachEvolves d.approvals db'.approvals
    split run_row call digest d none k =
        request_new-EachEvolves env request run_row call token d db' a' k
    split run_row call digest d (some a) k = unchanged-EachEvolves (
        ap (λ (x : Db). x.approvals)
          (handle_duplicate-db env a request digest (env.clock 0) d db' a' k))

-- The operations with their arguments.
pub data Command : Type 0 where
  on_create : ApprovalRequest → ℕ → Command
  on_load : ℕ → ℕ → Command
  on_decide : ℕ → ℕ → Approver → ApprovalDecision → Option Text → ℕ → Command
  on_claim : ℕ → ℕ → ℕ → ℕ → Command
  on_resume_claim : ℕ → ℕ → ℕ → ℕ → Command
  on_consume : ℕ → ℕ → ℕ → InvocationStatus → Option Text → ℕ → Command
  on_invalidate : ℕ → ℕ → Option Text → ℕ → Command

unfoldable pub execute : Command → Env → Exec Approval
unfolding create load decide claim resume_claim consume invalidate
execute (on_create request token) env = create env request token
execute (on_load id token) env = load env id token
execute (on_decide id revision approver decision reason token) env =
    decide env id revision approver decision reason token
execute (on_claim id revision intent token) env = claim env id revision intent token
execute (on_resume_claim id revision intent token) env = resume_claim env id revision intent token
execute (on_consume id revision intent result code token) env =
    consume env id revision intent result code token
execute (on_invalidate id revision reason token) env = invalidate env id revision reason token

execute-EachEvolves :
    (c : Command) (env : Env) (db db' : Db) (a' : Approval)
    → execute c env db ≡ (ok a', db')
    → EachEvolves db.approvals db'.approvals
unfolding execute SameBinding
execute-EachEvolves (on_create request token) env db db' a' h =
    create-EachEvolves env request token db db' a' h
execute-EachEvolves (on_load id token) env db db' a' h = load-EachEvolves env id token db db' a' h
execute-EachEvolves (on_decide id revision approver decision reason token) env db db' a' h =
    let (a, _, done) = decide-Decided env id revision approver decision reason token db db' a' h in
    put-EachEvolves id a a' db.approvals db'.approvals done.found
      (Decided-Evolves a a' decision approver (env.clock 0) done.pending done.returned)
      done.approvals_after
execute-EachEvolves (on_claim id revision intent token) env db db' a' h =
    let (a, _, done) = claim-Claimed env id revision intent token db db' a' h in
    put-EachEvolves id a a' db.approvals db'.approvals done.found
      (moved a a' (after_claim a intent (env.clock 0)) done.approved done.returned Advances.claim
        refl refl)
      done.approvals_after
execute-EachEvolves (on_resume_claim id revision intent token) env db db' a' h =
    unchanged-EachEvolves (resume_claim-db env id revision intent token db db' a' h)
execute-EachEvolves (on_consume id revision intent result code token) env db db' a' h =
    let (a, _, done) = consume-Consumed env id revision intent result code token db db' a' h in
    put-EachEvolves id a a' db.approvals db'.approvals done.found
      (moved a a' (after_consume a done.code (env.clock 0)) done.fit.claimed done.returned
        Advances.consume refl refl)
      done.approvals_after
execute-EachEvolves (on_invalidate id revision reason token) env db db' a' h =
    let (a, _, done) = invalidate-Invalidated env id revision reason token db db' a' h in
    put-EachEvolves id a a' db.approvals db'.approvals done.found
      (Invalidated-Evolves a a' done.not_ended done.returned) done.approvals_after

-- In every transaction of the approvals' store, whatever its outcome, each stored approval stays or
-- moves along one edge of the diagram: its revision goes up by one then, and what it was bound to is
-- kept.
pub execute-Evolves :
    (c : Command) (env : Env) (db : Db) (k : ℕ) (a : Approval)
    → lookup k db.approvals ≡ some a
    → (a' : Approval) × (lookup k (transaction env (execute c) db).1.approvals ≡ some a')
      × Evolves a a'
unfolding EachEvolves
execute-Evolves c env db k a h =
    transaction_keeps (λ d. EachEvolves db.approvals d.approvals) env (execute c) db
      (unchanged-EachEvolves refl) (λ a' db' e. execute-EachEvolves c (inside env) db db' a' e) k a
      h
