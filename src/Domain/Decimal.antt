-- ===== src/Domain/Decimal.antt =====
-- The arithmetic of Python's `Decimal` that the budget uses: a result has at most 28 significant digits,
-- the precision of the default context. Amounts are counted in a fixed power of ten, so that they are
-- natural numbers; the limits of exponents are not modelled.
use Prim.Native.Nat.{compare, Ordering}
use my_ai_agent_fullstack_tr.Base.{
  arith, if◌then◌else◌, list_eq, ltb, nat_eq, option_eq, pair_eq, refl, suc, zero, ℕ, ◌%◌, ◌*◌, ◌+◌,
  ◌/◌, ◌<◌, ◌==◌, ◌≡◌,
}

-- The first number of 29 digits.
abbrev pub precision_limit : ℕ
precision_limit = 10000000000000000000000000000

-- `ROUND_HALF_EVEN` to a multiple of a power of ten.
unfoldable pub round_half_even : ℕ → ℕ → ℕ
round_half_even unit n =
    let q = n / unit in
    let r = n % unit in
    if ltb (2 * r) unit
    then q * unit
    else if ltb unit (2 * r)
    then (q + 1) * unit
    else if q % 2 == 0
    then q * unit
    else (q + 1) * unit

-- The least unit that leaves 28 digits is searched; a number has fewer digits than it counts.
unfoldable round_at : ℕ → ℕ → ℕ → ℕ
unfolding round_half_even
round_at zero unit n = n
round_at (suc fuel) unit n = elim (compare (n / unit) precision_limit) [
  | Ordering.lt ↦ round_half_even unit n
  | _ ↦ round_at fuel (10 * unit) n
]

-- The result of an operation, by its exact value.
unfoldable pub rounded : ℕ → ℕ
unfolding round_at
rounded n = round_at n 1 n

-- What has 28 digits is exact.
pub rounded-exact : (n : ℕ) → n < precision_limit → rounded n ≡ n
unfolding rounded
rounded-exact zero h = refl
rounded-exact (suc n) h = ground (arith, h)
