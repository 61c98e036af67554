-- ===== src/Approval/Diagram.antt =====
-- The life of the stored approvals under all operations of the approvals' store.
use my_ai_agent_fullstack_tr.Base.{
  ap, arith, inl, inr, list_eq, nat_eq, option_eq, pair_eq, refl, some, subst, sym, true, ℕ,
  ℕ_discrete, ◌+◌, ◌∙◌, ◌≡◌, ◌⊎◌,
}
use my_ai_agent_fullstack_tr.Approval.{is_active, load}
use my_ai_agent_fullstack_tr.Approval.Decide.{Approver}
use my_ai_agent_fullstack_tr.Approval.Decision.{after_decision}
use my_ai_agent_fullstack_tr.Approval.Expiry.{
  Expired, materialize_expiry-returns, required_approval-returns,
}
use my_ai_agent_fullstack_tr.Approval.Invalidation.{after_invalidate}
use my_ai_agent_fullstack_tr.Domain.Models.{Approval}
use my_ai_agent_fullstack_tr.Domain.Status.{
  ApprovalDecision, ApprovalStatus, approval_decision_eq, approval_status_eq,
}
use my_ai_agent_fullstack_tr.State.Access.{verify_lease-returns}
use my_ai_agent_fullstack_tr.Storage.Exec.{ok}
use my_ai_agent_fullstack_tr.Storage.Inversion.{bind-returns, gets-returns, or_raise-returns}
use my_ai_agent_fullstack_tr.Storage.Rows.{Db, Env, later}
use my_ai_agent_fullstack_tr.Storage.Table.{Table, lookup, lookup-put, put}

-- The diagram: an approval is decided, claimed and consumed; it may be invalidated until it is
-- consumed, and expires until it is claimed.
pub data Advances : ApprovalStatus → ApprovalStatus → Type 0 where
  approve : Advances ApprovalStatus.pending ApprovalStatus.approved
  reject : Advances ApprovalStatus.pending ApprovalStatus.rejected
  claim : Advances ApprovalStatus.approved ApprovalStatus.claimed
  consume : Advances ApprovalStatus.claimed ApprovalStatus.consumed
  invalidate : {s : ApprovalStatus} → is_active s ≡ true → Advances s ApprovalStatus.invalidated
  invalidate_claimed : Advances ApprovalStatus.claimed ApprovalStatus.invalidated
  expire : {s : ApprovalStatus} → is_active s ≡ true → Advances s ApprovalStatus.expired

-- All but the status, the revision and the fields of the decision, the claim and the consumption.
unfoldable pub SameBinding : Approval → Approval → Type 0
SameBinding a a' = a' ≡ record a {
  status = a'.status;
  revision = a'.revision;
  decided_at = a'.decided_at;
  decided_by = a'.decided_by;
  claimed_at = a'.claimed_at;
  execution_intent_id = a'.execution_intent_id;
  consumed_at = a'.consumed_at;
  consumption_code = a'.consumption_code;
}

-- An approval moves along one edge, or stays.
unfoldable pub Evolves : Approval → Approval → Type 0
Evolves a a' =
    (a' ≡ a) ⊎ (Advances a.status a'.status × SameBinding a a' × (a'.revision ≡ a.revision + 1))

-- Each approval of the table is still there, and has evolved.
unfoldable pub EachEvolves : Table ℕ Approval → Table ℕ Approval → Type 0
unfolding Evolves
EachEvolves t t' =
    (k : ℕ) (a : Approval)
    → lookup k t ≡ some a
    → (a' : Approval) × (lookup k t' ≡ some a') × Evolves a a'

pub unchanged-EachEvolves : {t t' : Table ℕ Approval} → t' ≡ t → EachEvolves t t'
unfolding EachEvolves
unchanged-EachEvolves e k a h = (a, ap (λ (x : Table ℕ Approval). lookup k x) e ∙ h, inl refl)

pub put-EachEvolves :
    (id : ℕ) (row a' : Approval) (t t' : Table ℕ Approval)
    → lookup id t ≡ some row
    → Evolves row a'
    → t' ≡ put id a' t
    → EachEvolves t t'
unfolding EachEvolves
put-EachEvolves id row a' t t' found evolves e k a h = elim (ℕ_discrete id k) [
  | yes same ↦ (
    a',
    ground (arith, e, same, lookup-put id k a' t),
    subst (λ (x : Approval). Evolves x a') (ground (arith, same, found, h)) evolves,
  )
  | no other ↦ (a, ground (arith, e, other, h, lookup-put id k a' t), inl refl)
]

-- An edge between the statuses of two approvals.
pub moved :
    (a a' b : Approval) {s : ApprovalStatus}
    → a.status ≡ s
    → a' ≡ b
    → Advances s b.status
    → SameBinding a b
    → b.revision ≡ a.revision + 1
    → Evolves a a'
unfolding Evolves
moved a a' b p e edge same next =
    subst (λ (x : Approval). Evolves a x) (sym e)
      (inr (subst (λ (x : ApprovalStatus). Advances x b.status) (sym p) edge, same, next))

pub Decided-Evolves :
    (a a' : Approval) (decision : ApprovalDecision) (approver : Approver) (now : ℕ)
    → a.status ≡ ApprovalStatus.pending
    → a' ≡ after_decision a decision approver now
    → Evolves a a'
unfolding SameBinding
Decided-Evolves a a' ApprovalDecision.approve approver now p e =
    moved a a' (after_decision a ApprovalDecision.approve approver now) p e approve refl refl
Decided-Evolves a a' ApprovalDecision.reject approver now p e =
    moved a a' (after_decision a ApprovalDecision.reject approver now) p e reject refl refl

pub Invalidated-Evolves :
    (a a' : Approval) {P Q : Type 0}
    → ((is_active a.status ≡ true) × P) ⊎ ((a.status ≡ ApprovalStatus.claimed) × Q)
    → a' ≡ after_invalidate a
    → Evolves a a'
unfolding SameBinding
Invalidated-Evolves a a' (inl (active, _)) e =
    moved a a' (after_invalidate a) refl e (invalidate active) refl refl
Invalidated-Evolves a a' (inr (p, _)) e =
    moved a a' (after_invalidate a) p e invalidate_claimed refl refl

Expired-EachEvolves :
    (a a' : Approval) (now : ℕ) (db db' : Db) (row : Approval)
    → is_active a.status ≡ true
    → Expired a now db a' db' row
    → EachEvolves db.approvals db'.approvals
unfolding SameBinding
Expired-EachEvolves a a' now db db' row active done =
    put-EachEvolves a.approval_id row a' db.approvals db'.approvals done.found
      (moved row a' (record row { status = ApprovalStatus.expired; revision = row.revision + 1 })
        done.status_fits done.returned (expire active) refl refl)
      done.approvals_after

pub load-EachEvolves :
    (env : Env) (approval_id token : ℕ) (db db' : Db) (a' : Approval)
    → load env approval_id token db ≡ (ok a', db')
    → EachEvolves db.approvals db'.approvals
unfolding load
load-EachEvolves env approval_id token db db' a' h =
    let (row, _, h1) = or_raise-returns _ _ _ db (gets-returns _ _ db h) in
    let (_, d1, b1, h2) = bind-returns _ _ db h1 in
    let (_, _, _, _, e1) = verify_lease-returns env row.run_id token (env.clock 0) db d1 b1 in
    let (a, d2, b2, h3) = bind-returns _ _ d1 h2 in
    let (_, _, e2) = required_approval-returns env approval_id d1 d2 a b2 in
    subst (λ (d : Db). EachEvolves d.approvals db'.approvals) (e2 ∙ e1)
      (elim (materialize_expiry-returns (later 1 env) a a' token d2 db' h3) [
        | inl (_, same, _) ↦ unchanged-EachEvolves (ap (λ (d : Db). d.approvals) same)
        | inr due ↦ Expired-EachEvolves a a' (env.clock 1) d2 db' due.1.0 due.0 due.1.1
      ])
