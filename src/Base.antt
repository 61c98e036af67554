-- ===== src/Base.antt =====
-- The names that every module shares: the libraries', passed on, and Boolean tests.
use Prim.Native.Nat.{compare, Ordering}
pub use Prim.Native.Nat.{ℕ, zero, suc, ◌+◌, ◌-◌, ◌*◌, ◌/◌, ◌%◌, ◌≤◌, ◌<◌}
pub use mathlib.Core.Path.{◌≡◌, refl, sym, ap, ◌∙◌, subst}
pub use mathlib.Core.Logic.{◌≢◌, ◌↔◌, ◌⊎◌, inl, inr}
pub use mathlib.Core.Bool.{Bool, true, false, not, ◌&&◌, ◌||◌}
pub use mathlib.Core.Option.{Option, none, some}
pub use mathlib.Core.List.{List, [], ◌∷◌, ◌++◌, map, append_assoc, append-nil}
pub use native.Mathlib.Omega.{arith}
unfoldable pub use native.Mathlib.Decide.{ℕ_discrete}

abbrev pub ltb : ℕ → ℕ → Bool
ltb a b = elim (compare a b) [ Ordering.lt ↦ true | _ ↦ false ]

abbrev pub leb : ℕ → ℕ → Bool
leb a b = elim (compare a b) [ Ordering.gt ↦ false | _ ↦ true ]

infix 1 if◌then◌else◌
abbrev pub if◌then◌else◌ {ℓ} : {A : Type ℓ} → Bool → A → A → A
if true then x else y = x
if false then x else y = y

-- Python's `==` on a type whose equality is decided.
pub record Eq (A : Type 0) : Type 0 where
  pub dec : Discrete A

infix 50 ◌==◌ ◌/=◌
abbrev pub ◌==◌ : {A : Type 0} ⦃e : Eq A⦄ → A → A → Bool
◌==◌ ⦃e⦄ a b = elim (e.dec a b) [ yes _ ↦ true | no _ ↦ false ]

abbrev pub ◌/=◌ : {A : Type 0} ⦃e : Eq A⦄ → A → A → Bool
a /= b = not (a == b)

instance abbrev pub nat_eq : Eq ℕ
nat_eq = record { dec = ℕ_discrete }

pub Bool-cases : (b : Bool) → (b ≡ true) ⊎ (b ≡ false)
Bool-cases true = inl refl
Bool-cases false = inr refl

pub Option-cases {ℓ} : {A : Type ℓ} (o : Option A) → (o ≡ none) ⊎ ((a : A) × (o ≡ some a))
Option-cases none = inl refl
Option-cases (some a) = inr (a, refl)

abbrev pub is_some {ℓ} : {A : Type ℓ} → Option A → Bool
is_some none = false
is_some (some a) = true

-- `x or y` on an optional value
abbrev pub or_else {ℓ} : {A : Type ℓ} → Option A → A → A
or_else none d = d
or_else (some a) d = a

module _ {ℓ} {A : Type ℓ} where
  abbrev pub length : List A → ℕ
  length [] = 0
  length (x ∷ xs) = suc (length xs)

  abbrev pub get_last? : List A → Option A
  get_last? [] = none
  get_last? (x ∷ []) = some x
  get_last? (x ∷ y ∷ xs) = get_last? (y ∷ xs)

-- Membership of a Python set or tuple.
abbrev pub contains : {A : Type 0} ⦃e : Eq A⦄ → A → List A → Bool
contains a [] = false
contains a (x ∷ xs) = a == x || contains a xs

unfoldable pub Option-discrete : {A : Type 0} → Discrete A → Discrete (Option A)
Option-discrete d = hlevel d

unfoldable pub List-discrete : {A : Type 0} → Discrete A → Discrete (List A)
List-discrete d = hlevel d

unfoldable pub Pair-discrete : {A B : Type 0} → Discrete A → Discrete B → Discrete (A × B)
Pair-discrete d d' = hlevel (d, d')

instance abbrev pub option_eq : {A : Type 0} ⦃e : Eq A⦄ → Eq (Option A)
option_eq ⦃e⦄ = record { dec = Option-discrete e.dec }

instance abbrev pub list_eq : {A : Type 0} ⦃e : Eq A⦄ → Eq (List A)
list_eq ⦃e⦄ = record { dec = List-discrete e.dec }

instance abbrev pub pair_eq : {A B : Type 0} ⦃e : Eq A⦄ ⦃f : Eq B⦄ → Eq (A × B)
pair_eq ⦃e⦄ ⦃f⦄ = record { dec = Pair-discrete e.dec f.dec }

-- What a test that failed says.
pub equals : {A : Type 0} ⦃e : Eq A⦄ (a b : A) → (a /= b) ≡ false → a ≡ b
equals a b h = ground (arith, h)

pub differs : {A : Type 0} ⦃e : Eq A⦄ (a b : A) → (a == b) ≡ false → a ≢ b
differs a b h = ground (arith, h)

pub exceeds : (a b : ℕ) → leb a b ≡ false → b < a
exceeds a b h = ground (arith, h)
