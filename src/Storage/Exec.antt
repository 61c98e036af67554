-- ===== src/Storage/Exec.antt =====
-- An operation of a store inside a transaction: it reads and writes the database, and returns or
-- raises. What was written before a raise is still there, until `transaction` of
-- week03_guarded-harness/src/guarded_harness/storage.py rolls it back.
use my_ai_agent_fullstack_tr.Base.{
  Bool, Option, [], if◌then◌else◌, length, list_eq, ltb, nat_eq, none, option_eq, pair_eq, some,
  ◌==◌, ◌||◌,
}
use my_ai_agent_fullstack_tr.Domain.ErrorCode.{ErrorCode, state_transaction_failed}
use my_ai_agent_fullstack_tr.Storage.Rows.{Db, Env}

-- What is raised: a store error by its code, pydantic's `ValidationError`, or the database's
-- `IntegrityError`.
pub data Failure : Type 0 where
  raised : ErrorCode → Failure
  validation_error : Failure
  integrity_error : Failure

pub data Result (A : Type 0) : Type 0 where
  ok : A → Result A
  err : Failure → Result A

abbrev pub Exec : Type 0 → Type 0
Exec A = Db → Result A × Db

module _ {A : Type 0} where
  unfoldable pub pure : A → Exec A
  pure a db = (ok a, db)

  unfoldable raise : ErrorCode → Exec A
  raise c db = (err (raised c), db)

  unfoldable pub or_raise : Option A → ErrorCode → Exec A
  or_raise none c db = (err (raised c), db)
  or_raise (some a) c db = (ok a, db)

  unfoldable pub gets : (Db → A) → Exec A
  gets f db = (ok (f db), db)

unfoldable pub raise_if : Bool → ErrorCode → Exec (Unit {0})
raise_if b c db = (if b then err (raised c) else ok tt, db)

-- A model that is built from a row or from the arguments raises if it is not valid.
unfoldable pub validated : Bool → Exec (Unit {0})
validated b db = (if b then ok tt else err validation_error, db)

-- A constraint of a table.
unfoldable pub constrained : Bool → Exec (Unit {0})
constrained b db = (if b then ok tt else err integrity_error, db)

unfoldable pub modify : (Db → Db) → Exec (Unit {0})
modify f db = (ok tt, f db)

module _ {A B : Type 0} where
  abbrev pub continue : Result A → Db → (A → Exec B) → Result B × Db
  continue (ok a) db f = f a db
  continue (err e) db f = (err e, db)

  infixl 10 ◌>>=◌ ◌>>◌
  -- To open this opens the actions above too.
  unfoldable pub ◌>>=◌ : Exec A → (A → Exec B) → Exec B
  unfolding pure raise or_raise gets raise_if validated constrained modify
  ◌>>=◌ m f db = let (r, db') = m db in continue r db' f

  abbrev pub ◌>>◌ : Exec A → Exec B → Exec B
  m >> k = m >>= λ _. k

-- The end of the `with` block: commit, or roll back to the database before it.
abbrev pub settle : {A : Type 0} → Db → Result A × Db → Result A × Db
settle db (ok a, db') = (ok a, db')
settle db (err e, db') = (err e, db)

-- `SQLiteStorage.transaction`
unfoldable pub transaction : {A : Type 0} → Env → (Env → Exec A) → Exec A
transaction env body db =
    let actor = env.strip env.actor in
    if actor == [] || ltb 256 (length actor)
    then (err (raised state_transaction_failed), db)
    else settle db (body (record env { actor = actor }) db)
