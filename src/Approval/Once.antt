-- ===== src/Approval/Once.antt =====
-- An approval is claimed at most once, whatever is done with the store.
use my_ai_agent_fullstack_tr.Base.{
  Bool, Bool-cases, List, Option, [], ap, arith, false, if◌then◌else◌, inl, inr, list_eq, nat_eq,
  option_eq, pair_eq, refl, some, subst, true, ℕ, ◌+◌, ◌==◌, ◌∙◌, ◌∷◌, ◌≡◌, ◌≢◌, ◌≤◌,
}
use my_ai_agent_fullstack_tr.Approval.{is_active}
use my_ai_agent_fullstack_tr.Approval.Commands.{Command, execute, execute-Evolves}
use my_ai_agent_fullstack_tr.Approval.Diagram.{Advances, Evolves}
use my_ai_agent_fullstack_tr.Approval.Execution.{claim-Claimed}
use my_ai_agent_fullstack_tr.Domain.Models.{Approval}
use my_ai_agent_fullstack_tr.Domain.Status.{ApprovalStatus, approval_status_eq}
use my_ai_agent_fullstack_tr.Storage.Atomic.{inside, transaction-returns}
use my_ai_agent_fullstack_tr.Storage.Exec.{Result, err, ok, transaction}
use my_ai_agent_fullstack_tr.Storage.Rows.{Db, Env}
use my_ai_agent_fullstack_tr.Storage.Table.{Table, lookup, lookup-put_self}

-- Whether a command with this outcome has claimed the approval `k`.
unfoldable has_claimed : ℕ → Command → Result Approval → Bool
has_claimed k (Command.on_claim id revision intent token) (ok a) = id == k
has_claimed k _ _ = false

-- How often `k` is claimed in a sequence of transactions, each with its own surroundings.
unfoldable pub claims : ℕ → List (Command × Env) → Db → ℕ
unfolding has_claimed execute transaction
claims k [] db = 0
claims k ((c, env) ∷ rest) db =
    let r = transaction env (execute c) db in
    (if has_claimed k c r.0 then 1 else 0) + claims k rest r.1

-- A claim that has been made: the approval was approved, and is claimed now.
has_claimed-Claimed :
    (k : ℕ) (c : Command) (env : Env) (db : Db)
    → has_claimed k c (transaction env (execute c) db).0 ≡ true
    → (a a' : Approval) × (lookup k db.approvals ≡ some a)
      × (a.status ≡ ApprovalStatus.approved)
      × (lookup k (transaction env (execute c) db).1.approvals ≡ some a')
      × (a'.status ≡ ApprovalStatus.claimed)
unfolding has_claimed execute
has_claimed-Claimed k (Command.on_claim id revision intent token) env db h =
    go (transaction env (execute (Command.on_claim id revision intent token)) db) refl h
  where
    go :
        (r : Result Approval × Db)
        → transaction env (execute (Command.on_claim id revision intent token)) db ≡ r
        → has_claimed k (Command.on_claim id revision intent token) r.0 ≡ true
        → (a a' : Approval) × (lookup k db.approvals ≡ some a)
          × (a.status ≡ ApprovalStatus.approved)
          × (lookup k r.1.approvals ≡ some a')
          × (a'.status ≡ ApprovalStatus.claimed)
    go (ok a', d) e t =
        let (a, _, done) =
          claim-Claimed (inside env) id revision intent token db d a'
            (transaction-returns env _ db e) in
        let same : id ≡ k = ground (arith, t) in
        (
          a,
          a',
          subst (λ (n : ℕ). lookup n db.approvals ≡ some a) same done.found,
          done.approved,
          subst (λ (n : ℕ). lookup n d.approvals ≡ some a') same
              (ap (λ (x : Table ℕ Approval). lookup id x) done.approvals_after
                ∙ lookup-put_self id a' db.approvals),
          ap (λ (x : Approval). x.status) done.returned,
        )
    go (err x, d) e t = cc
has_claimed-Claimed k _ env db h = cc

no_way_back : {s t : ApprovalStatus} → Advances s t → is_active s ≡ false → is_active t ≡ false
no_way_back Advances.approve h = cc
no_way_back Advances.reject h = cc
no_way_back Advances.claim h = cc
no_way_back Advances.consume h = refl
no_way_back (Advances.invalidate active) h = refl
no_way_back Advances.invalidate_claimed h = refl
no_way_back (Advances.expire active) h = refl

-- What is not active stays so.
stays_late :
    (a a' : Approval) → is_active a.status ≡ false → Evolves a a' → is_active a'.status ≡ false
unfolding Evolves
stays_late a a' late (inl same) = ap (λ (x : Approval). is_active x.status) same ∙ late
stays_late a a' late (inr (edge, _, _)) = no_way_back edge late

contradicts :
    (a b : Approval) {o : Option Approval}
    → o ≡ some a
    → o ≡ some b
    → is_active a.status ≡ false
    → b.status ≢ ApprovalStatus.approved
contradicts a b p q late approved = ground (arith, p, q, late, approved)

counted : (b : Bool) (n : ℕ) → b ≡ false → n ≡ 0 → (if b then 1 else 0) + n ≡ 0
counted b n h e = ground (arith, h, e)

last_one : (b : Bool) (n : ℕ) → n ≡ 0 → (if b then 1 else 0) + n ≤ 1
last_one b n e = ground (arith, e)

not_now : (b : Bool) (n : ℕ) → b ≡ false → n ≤ 1 → (if b then 1 else 0) + n ≤ 1
not_now b n h e = ground (arith, h, e)

none_left :
    (k : ℕ) (trace : List (Command × Env)) (db : Db) (a : Approval)
    → lookup k db.approvals ≡ some a
    → is_active a.status ≡ false
    → claims k trace db ≡ 0
unfolding claims
none_left k [] db a h late = refl
none_left k ((c, env) ∷ rest) db a h late =
    let (a', h', evolves) = execute-Evolves c env db k a h in
    let r = transaction env (execute c) db in
    elim (Bool-cases (has_claimed k c r.0)) [
      | inl claimed ↦
          let (b, _, found, approved, _, _) = has_claimed-Claimed k c env db claimed in
          absurd (contradicts a b h found late approved)
      | inr missed ↦ counted _ _ missed (none_left k rest r.1 a' h' (stays_late a a' late evolves))
    ]

-- In any sequence of transactions of the approvals' store, with any surroundings, clocks and
-- arguments, an approval is claimed at most once.
pub claims_at_most_once : (k : ℕ) (trace : List (Command × Env)) (db : Db) → claims k trace db ≤ 1
unfolding claims
claims_at_most_once k [] db = omega arith
claims_at_most_once k ((c, env) ∷ rest) db =
    let r = transaction env (execute c) db in
    elim (Bool-cases (has_claimed k c r.0)) [
      | inl claimed ↦
          let (_, b, _, _, found, late) = has_claimed-Claimed k c env db claimed in
          last_one _ _ (none_left k rest r.1 b found (ap is_active late))
      | inr missed ↦ not_now _ _ missed (claims_at_most_once k rest r.1)
    ]
