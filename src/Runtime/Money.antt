-- ===== src/Runtime/Money.antt =====
-- The money in `ACCOUNTS` of tool_governance_demo.py: what calls of the four tools do to it.
use my_ai_agent_fullstack_tr.Base.{
  [], arith, false, if◌then◌else◌, list_eq, nat_eq, option_eq, or_else, pair_eq, some, ℕ, ◌+◌, ◌==◌,
  ◌∷◌, ◌≡◌, ◌≤◌,
}
use my_ai_agent_fullstack_tr.Domain.Models.{Text}
use my_ai_agent_fullstack_tr.Runtime.{Balance}
use my_ai_agent_fullstack_tr.Runtime.Tools.{below, empty_balance, move_money}
use my_ai_agent_fullstack_tr.Storage.Table.{Table, lookup, lookup-put, put}

abbrev pub Accounts : Type 0
Accounts = Table (Text × Text) Balance

-- What a tenant's accounts hold: paid in, and paid out.
unfoldable pub paid_in : Text → Accounts → ℕ
paid_in tenant [] = 0
paid_in tenant ((key, b) ∷ t) = (if key.0 == tenant then b.credits else 0) + paid_in tenant t

unfoldable pub paid_out : Text → Accounts → ℕ
paid_out tenant [] = 0
paid_out tenant ((key, b) ∷ t) = (if key.0 == tenant then b.debits else 0) + paid_out tenant t

-- No account of the table is overdrawn.
pub record Solvent (t : Accounts) : Type 0 where
  pub funded : (key : Text × Text) (b : Balance) → lookup key t ≡ some b → b.debits ≤ b.credits

-- Every tenant holds as much as before.
pub record Conserved (t t' : Accounts) : Type 0 where
  pub holds :
      (tenant : Text)
      → paid_in tenant t' + paid_out tenant t ≡ paid_in tenant t + paid_out tenant t'

paid_in-put :
    (tenant : Text) (key : Text × Text) (b : Balance) (t : Accounts)
    → paid_in tenant (put key b t)
        + (if key.0 == tenant then (or_else (lookup key t) empty_balance).credits else 0)
      ≡ paid_in tenant t + (if key.0 == tenant then b.credits else 0)
unfolding paid_in put lookup
paid_in-put tenant key b [] = ground (arith)
paid_in-put tenant key b ((k, c) ∷ t) = ground (arith, paid_in-put tenant key b t)

paid_out-put :
    (tenant : Text) (key : Text × Text) (b : Balance) (t : Accounts)
    → paid_out tenant (put key b t)
        + (if key.0 == tenant then (or_else (lookup key t) empty_balance).debits else 0)
      ≡ paid_out tenant t + (if key.0 == tenant then b.debits else 0)
unfolding paid_out put lookup
paid_out-put tenant key b [] = ground (arith)
paid_out-put tenant key b ((k, c) ∷ t) = ground (arith, paid_out-put tenant key b t)

pub move_money-Conserved :
    (tenant from_account to_account : Text) (amount : ℕ) (t : Accounts)
    → Conserved t (move_money (tenant, from_account) (tenant, to_account) amount t)
unfolding move_money
move_money-Conserved tenant from_account to_account amount t = record {
  holds = λ other.
      let from_key : Text × Text = (tenant, from_account) in
      let to_key : Text × Text = (tenant, to_account) in
      let b = or_else (lookup from_key t) empty_balance in
      let b' : Balance = record b { debits = b.debits + amount } in
      let t' = put from_key b' t in
      let c = or_else (lookup to_key t') empty_balance in
      let c' : Balance = record c { credits = c.credits + amount } in
      ground (
        arith,
        paid_in-put other from_key b' t,
        paid_out-put other from_key b' t,
        paid_in-put other to_key c' t',
        paid_out-put other to_key c' t',
      );
}

pub move_money-Solvent :
    (from_key to_key : Text × Text) (amount : ℕ) (t : Accounts)
    → below amount (or_else (lookup from_key t) empty_balance) ≡ false
    → Solvent t
    → Solvent (move_money from_key to_key amount t)
unfolding move_money
move_money-Solvent from_key to_key amount t h solvent = record {
  funded = λ key d found.
      let b = or_else (lookup from_key t) empty_balance in
      let b' : Balance = record b { debits = b.debits + amount } in
      let t' = put from_key b' t in
      let c = or_else (lookup to_key t') empty_balance in
      let c' : Balance = record c { credits = c.credits + amount } in
      ground (
        arith,
        h,
        found,
        solvent.funded key d,
        solvent.funded to_key c,
        lookup-put to_key key c' t',
        lookup-put from_key key b' t,
        lookup-put from_key to_key b' t,
      );
}
