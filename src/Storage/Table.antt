-- ===== src/Storage/Table.antt =====
-- A table with a primary key, as an association list: SELECT, INSERT OR REPLACE and UPDATE by key
-- (the statements of state_store.py, approval.py and audit.py).
use my_ai_agent_fullstack_tr.Base.{
  Eq, List, Option, [], arith, if◌then◌else◌, list_eq, nat_eq, none, option_eq, pair_eq, refl, some,
  ◌==◌, ◌∷◌, ◌≡◌,
}

abbrev pub Table : Type 0 → Type 0 → Type 0
Table K V = List (K × V)

module _ {K V : Type 0} ⦃e : Eq K⦄ where
  unfoldable pub lookup : K → Table K V → Option V
  lookup k [] = none
  lookup k ((j, v) ∷ t) = if j == k then some v else lookup k t

  -- Replaces the row of the key, or adds one at the end.
  unfoldable pub put : K → V → Table K V → Table K V
  put k v [] = (k, v) ∷ []
  put k v ((j, w) ∷ t) = if j == k then (k, v) ∷ t else (j, w) ∷ put k v t

  pub lookup-put :
      (k j : K) (v : V) (t : Table K V)
      → lookup j (put k v t) ≡ (if k == j then some v else lookup j t)
  unfolding lookup put
  lookup-put k j v [] = refl
  lookup-put k j v ((i, w) ∷ t) = ground (arith, lookup-put k j v t)

  pub lookup-put_self : (k : K) (v : V) (t : Table K V) → lookup k (put k v t) ≡ some v
  lookup-put_self k v t = ground (arith, lookup-put k k v t)
