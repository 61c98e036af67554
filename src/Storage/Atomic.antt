-- ===== src/Storage/Atomic.antt =====
-- Transactions are atomic: what does not return leaves nothing behind.
use my_ai_agent_fullstack_tr.Base.{
  Bool-cases, [], ap, arith, inl, inr, length, list_eq, ltb, nat_eq, option_eq, pair_eq, refl,
  subst, sym, ◌==◌, ◌||◌, ◌∙◌, ◌≡◌, ◌≢◌,
}
use my_ai_agent_fullstack_tr.Storage.Exec.{Exec, Failure, Result, err, ok, settle, transaction}
use my_ai_agent_fullstack_tr.Storage.Rows.{Db, Env}

-- The surroundings that `transaction` gives to its block.
abbrev pub inside : Env → Env
inside env = record env { actor = env.strip env.actor }

module _ {A : Type 0} (env : Env) (body : Env → Exec A) (db : Db) where
  -- A transaction returns what its block returned, with the block's database.
  pub transaction-returns :
      {a : A} {db' : Db}
      → transaction env body db ≡ (ok a, db')
      → body (inside env) db ≡ (ok a, db')
  unfolding transaction
  transaction-returns {a} {db'} h =
      elim (Bool-cases (env.strip env.actor == [] || ltb 256 (length (env.strip env.actor)))) [
        | inl refused ↦ ground (arith, refused)
        | inr passed ↦ go (body (inside env) db) refl (ground (arith, passed))
      ]
    where
      go :
          (r : Result A × Db)
          → body (inside env) db ≡ r
          → settle db r ≡ (ok a, db')
          → body (inside env) db ≡ (ok a, db')
      go (ok b, d) e k = e ∙ k
      go (err x, d) e k = cc

  -- A transaction that raises leaves the database as it was.
  transaction_raises : {x : Failure} {db' : Db} → transaction env body db ≡ (err x, db') → db' ≡ db
  unfolding transaction
  transaction_raises {x} {db'} h =
      elim (Bool-cases (env.strip env.actor == [] || ltb 256 (length (env.strip env.actor)))) [
        | inl refused ↦ ground (arith, refused)
        | inr passed ↦ go (body (inside env) db) (ground (arith, passed))
      ]
    where
      go : (r : Result A × Db) → settle db r ≡ (err x, db') → db' ≡ db
      go (ok b, d) k = cc
      go (err x, d) k = sym (ap (λ (p : Result A × Db). p.1) k)

  -- One whose block does not return raises.
  pub transaction_refuses :
      ((a : A) (db' : Db) → body (inside env) db ≢ (ok a, db'))
      → (x : Failure) × (transaction env body db ≡ (err x, db))
  transaction_refuses never = go (transaction env body db) refl
    where
      go :
          (r : Result A × Db)
          → transaction env body db ≡ r
          → (x : Failure) × (transaction env body db ≡ (err x, db))
      go (ok a, d) e = absurd (never a d (transaction-returns e))
      go (err x, d) e = (x, e ∙ ap (λ d'. (err x, d')) (transaction_raises e))

  -- So does one whose block returns nothing.
  pub transaction_rolls_back :
      ((a : A) (db' : Db) → body (inside env) db ≢ (ok a, db')) → (transaction env body db).1 ≡ db
  transaction_rolls_back never = go (transaction env body db) refl
    where
      go : (r : Result A × Db) → transaction env body db ≡ r → r.1 ≡ db
      go (ok a, d) e = absurd (never a d (transaction-returns e))
      go (err x, d) e = transaction_raises e

-- An invariant that the block keeps when it returns is kept by the transaction, whatever its outcome.
pub transaction_keeps {ℓ} :
    {A : Type 0} (P : Db → Type ℓ) (env : Env) (body : Env → Exec A) (db : Db)
    → P db
    → ((a : A) (db' : Db) → body (inside env) db ≡ (ok a, db') → P db')
    → P (transaction env body db).1
transaction_keeps {A = A} P env body db p keep = go (transaction env body db) refl
  where
    go : (r : Result A × Db) → transaction env body db ≡ r → P r.1
    go (ok a, d) e = keep a d (transaction-returns env body db e)
    go (err x, d) e = subst P (sym (transaction_raises env body db e)) p
