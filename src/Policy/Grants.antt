-- ===== src/Policy/Grants.antt =====
-- Whom `check_permission` lets pass.
use my_ai_agent_fullstack_tr.Base.{
  Bool, Bool-cases, List, Option, [], arith, contains, differs, false, inl, inr, list_eq, nat_eq,
  none, option_eq, or_else, pair_eq, refl, some, sym, true, ◌&&◌, ◌++◌, ◌/=◌, ◌==◌, ◌||◌, ◌↔◌, ◌∙◌,
  ◌∷◌, ◌≡◌, ◌≢◌, ◌⊎◌,
}
use my_ai_agent_fullstack_tr.Domain.Models.{Text}
use my_ai_agent_fullstack_tr.Policy.{
  ExecutionMode, ExecutionMode-discrete, PolicyEngine, ToolExecutionContext, ToolPermission,
  ToolRisk, ToolRisk-discrete, ToolSpec, check_permission, check_risk, difference,
  execution_mode_eq, permissions_for, tool_permission_eq, tool_risk_eq,
}
use my_ai_agent_fullstack_tr.Storage.Rows.{Env}
use my_ai_agent_fullstack_tr.Storage.Table.{lookup}

-- One of the roles has the permission.
pub data GrantedBy (env : Env) (engine : PolicyEngine) (p : ToolPermission)
    : List Text → Type 0 where
  here :
      {r : Text} {roles : List Text} (granted : List ToolPermission)
      → lookup (env.casefold r) engine.role_permissions ≡ some granted
      → contains p granted ≡ true
      → GrantedBy env engine p (r ∷ roles)
  there :
      {r : Text} {roles : List Text}
      → GrantedBy env engine p roles
      → GrantedBy env engine p (r ∷ roles)

contains-++ :
    (p : ToolPermission) (xs ys : List ToolPermission)
    → contains p (xs ++ ys) ≡ (contains p xs || contains p ys)
contains-++ p [] ys = refl
contains-++ p (x ∷ xs) ys = ground (arith, contains-++ p xs ys)

module _ (env : Env) (engine : PolicyEngine) (p : ToolPermission) where
  -- The permissions of the first role, or of the others.
  first_or_rest :
      (r : Text) (roles : List Text) (rest : Bool)
      → (rest ≡ true → GrantedBy env engine p roles)
      → (o : Option (List ToolPermission)) → lookup (env.casefold r) engine.role_permissions ≡ o
      → (contains p (or_else o []) || rest) ≡ true
      → GrantedBy env engine p (r ∷ roles)
  first_or_rest r roles rest f none e k = there (f k)
  first_or_rest r roles rest f (some granted) e k = elim (Bool-cases (contains p granted)) [
    | inl granted_here ↦ here granted e granted_here
    | inr missing ↦ there (f (ground (arith, k, missing)))
  ]

  permitted-GrantedBy :
      (roles : List Text)
      → contains p (permissions_for env engine roles) ≡ true
      → GrantedBy env engine p roles
  unfolding permissions_for
  permitted-GrantedBy [] h = cc
  permitted-GrantedBy (r ∷ roles) h =
      first_or_rest r roles _ (permitted-GrantedBy roles)
        (lookup (env.casefold r) engine.role_permissions) refl
        (sym (
            contains-++ p (or_else (lookup (env.casefold r) engine.role_permissions) [])
              (permissions_for env engine roles))
          ∙ h)

  GrantedBy-permitted :
      (roles : List Text)
      → GrantedBy env engine p roles
      → contains p (permissions_for env engine roles) ≡ true
  unfolding permissions_for
  GrantedBy-permitted [] g = elim g [ ]
  GrantedBy-permitted (r ∷ roles) (here granted e k) =
      contains-++ p (or_else (lookup (env.casefold r) engine.role_permissions) [])
        (permissions_for env engine roles)
      ∙ ground (arith, e, k)
  GrantedBy-permitted (r ∷ roles) (there g) =
      contains-++ p (or_else (lookup (env.casefold r) engine.role_permissions) [])
        (permissions_for env engine roles)
      ∙ ground (arith, GrantedBy-permitted roles g)

nothing_missing :
    (required granted : List ToolPermission)
    → difference required granted ≡ []
    → (p : ToolPermission) → contains p required ≡ true
    → contains p granted ≡ true
unfolding difference
nothing_missing [] granted e p h = cc
nothing_missing (q ∷ required) granted e p h =
    ground (arith, e, h, nothing_missing required granted _ p _)

all_granted :
    (required granted : List ToolPermission)
    → ((p : ToolPermission) → contains p required ≡ true → contains p granted ≡ true)
    → difference required granted ≡ []
unfolding difference
all_granted [] granted f = refl
all_granted (q ∷ required) granted f =
    ground (arith, f q, all_granted required granted (λ p h. f p (ground (arith, h))))

-- A tool is permitted exactly when each permission that it requires is granted by a role of the
-- context, under the role's casefolded name.
pub check_permission_iff :
    (env : Env) (engine : PolicyEngine) (context : ToolExecutionContext) (spec : ToolSpec)
    → ((check_permission env engine context spec).allowed ≡ true) ↔ (
        (p : ToolPermission)
        → contains p spec.required_permissions ≡ true
        → GrantedBy env engine p context.roles)
unfolding check_permission
check_permission_iff env engine context spec =
    let required = spec.required_permissions in
    let granted = permissions_for env engine context.roles in
    (
      λ h p needed.
          permitted-GrantedBy env engine p context.roles
            (nothing_missing required granted (ground (arith, h)) p needed),
      λ f.
          let complete =
            all_granted required granted
              (λ p needed. GrantedBy-permitted env engine p context.roles (f p needed)) in
          ground (arith, complete),
    )

passes :
    (m : ExecutionMode) (k : ToolRisk) (needed : List ToolPermission)
    → (m == ExecutionMode.plan && k /= ToolRisk.read) ≡ false
    → (k /= ToolRisk.read && needed == []) ≡ false
    → (k ≡ ToolRisk.read) ⊎ ((m ≡ ExecutionMode.execute) × (needed ≢ []))
unfolding ToolRisk-discrete ExecutionMode-discrete
passes m ToolRisk.read needed a b = inl refl
passes ExecutionMode.execute ToolRisk.write needed a b = inr (refl, differs needed [] b)
passes ExecutionMode.execute ToolRisk.execute needed a b = inr (refl, differs needed [] b)
passes ExecutionMode.plan ToolRisk.write needed a b = cc
passes ExecutionMode.plan ToolRisk.execute needed a b = cc

risk_passes :
    (context : ToolExecutionContext) (spec : ToolSpec)
    → (spec.risk ≡ ToolRisk.read)
      ⊎ ((context.mode ≡ ExecutionMode.execute) × (spec.required_permissions ≢ []))
    → (check_risk context spec).allowed ≡ true
unfolding check_risk
risk_passes context spec (inl reads) = ground (arith, reads)
risk_passes context spec (inr (executes, needs)) = ground (arith, executes, needs)

-- The risk of a tool passes exactly when the tool only reads, or the mode is not planning and the tool
-- requires some permission.
check_risk_iff :
    (context : ToolExecutionContext) (spec : ToolSpec)
    → ((check_risk context spec).allowed ≡ true) ↔ (
        (spec.risk ≡ ToolRisk.read)
        ⊎ ((context.mode ≡ ExecutionMode.execute) × (spec.required_permissions ≢ [])))
unfolding check_risk
check_risk_iff context spec = (
  λ h.
      passes context.mode spec.risk spec.required_permissions (ground (arith, h))
        (ground (arith, h)),
  risk_passes context spec,
)
