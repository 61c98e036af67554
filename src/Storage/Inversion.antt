-- ===== src/Storage/Inversion.antt =====
-- What a block that returned has passed, statement by statement.
use my_ai_agent_fullstack_tr.Base.{Bool, Option, ap, arith, false, none, refl, some, true, ◌≡◌}
use my_ai_agent_fullstack_tr.Domain.ErrorCode.{ErrorCode}
use my_ai_agent_fullstack_tr.Storage.Exec.{
  Exec, Result, continue, err, gets, modify, ok, or_raise, pure, raise_if, validated, ◌>>=◌,
}
use my_ai_agent_fullstack_tr.Storage.Rows.{Db}

module _ {A B : Type 0} where
  -- Any statement.
  pub bind-returns :
      (m : Exec A) (f : A → Exec B) (db : Db) {b : B} {db' : Db}
      → (m >>= f) db ≡ (ok b, db')
      → (a : A) × (db1 : Db) × (m db ≡ (ok a, db1)) × (f a db1 ≡ (ok b, db'))
  unfolding ◌>>=◌
  bind-returns m f db {b} {db'} h = go (m db) refl h
    where
      go :
          (r : Result A × Db)
          → m db ≡ r
          → continue r.0 r.1 f ≡ (ok b, db')
          → (a : A) × (db1 : Db) × (m db ≡ (ok a, db1)) × (f a db1 ≡ (ok b, db'))
      go (ok a, db1) e k = (a, db1, e, k)
      go (err x, db1) e k = cc

  -- A statement that returned is run, and the rest follows.
  pub bind-ok :
      (m : Exec A) (f : A → Exec B) (db : Db) {a : A} {db1 : Db}
      → m db ≡ (ok a, db1)
      → (m >>= f) db ≡ f a db1
  unfolding ◌>>=◌
  bind-ok m f db e = ap (λ (r : Result A × Db). continue r.0 r.1 f) e

  pub gets-ok :
      (g : Db → A) (f : A → Exec B) (db : Db) {a : A} → g db ≡ a → (gets g >>= f) db ≡ f a db
  unfolding ◌>>=◌
  gets-ok g f db e = ap (λ (a : A). f a db) e

  pub or_raise-returns :
      (o : Option A) (c : ErrorCode) (f : A → Exec B) (db : Db) {b : B} {db' : Db}
      → (or_raise o c >>= f) db ≡ (ok b, db')
      → (a : A) × (o ≡ some a) × (f a db ≡ (ok b, db'))
  unfolding ◌>>=◌
  or_raise-returns none c f db h = cc
  or_raise-returns (some a) c f db h = (a, refl, h)

  pub gets-returns :
      (g : Db → A) (f : A → Exec B) (db : Db) {b : B} {db' : Db}
      → (gets g >>= f) db ≡ (ok b, db')
      → f (g db) db ≡ (ok b, db')
  unfolding ◌>>=◌
  gets-returns g f db h = h

module _ {B : Type 0} where
  pub raise_if-returns :
      (t : Bool) (c : ErrorCode) (f : Unit {0} → Exec B) (db : Db) {b : B} {db' : Db}
      → (raise_if t c >>= f) db ≡ (ok b, db')
      → (t ≡ false) × (f tt db ≡ (ok b, db'))
  unfolding ◌>>=◌
  raise_if-returns true c f db h = cc
  raise_if-returns false c f db h = (refl, h)

  pub validated-returns :
      (t : Bool) (f : Unit {0} → Exec B) (db : Db) {b : B} {db' : Db}
      → (validated t >>= f) db ≡ (ok b, db')
      → (t ≡ true) × (f tt db ≡ (ok b, db'))
  unfolding ◌>>=◌
  validated-returns true f db h = (refl, h)
  validated-returns false f db h = cc

  pub modify-returns :
      (g : Db → Db) (f : Unit {0} → Exec B) (db : Db) {b : B} {db' : Db}
      → (modify g >>= f) db ≡ (ok b, db')
      → f tt (g db) ≡ (ok b, db')
  unfolding ◌>>=◌
  modify-returns g f db h = h

pub pure-returns :
    {A : Type 0} (a : A) (db : Db) {b : A} {db' : Db}
    → pure a db ≡ (ok b, db')
    → (b ≡ a) × (db' ≡ db)
unfolding pure
pure-returns a db h = ground arith

-- A check at the end of a block.
pub raise_if-ends :
    (t : Bool) (c : ErrorCode) (db : Db) {db' : Db}
    → raise_if t c db ≡ (ok tt, db')
    → (t ≡ false) × (db' ≡ db)
unfolding raise_if
raise_if-ends t c db h = ground arith
