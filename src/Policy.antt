-- ===== src/Policy.antt =====
-- The policy of week03_guarded-harness/src/guarded_harness/policy.py: visibility, permissions by role,
-- risk by mode, approvals and limits. Its messages, and the validation of its configuration, are not
-- modelled.
pub mod Grants
use my_ai_agent_fullstack_tr.Base.{
  Bool, Eq, List, [], contains, false, if◌then◌else◌, list_eq, nat_eq, option_eq, or_else, pair_eq,
  true, ℕ, ◌&&◌, ◌++◌, ◌/=◌, ◌==◌, ◌||◌, ◌∷◌,
}
use my_ai_agent_fullstack_tr.Domain.ErrorCode.{
  ErrorCode, approval_required, gate_allowed, gate_mode_denied, gate_permission_denied,
  gate_risk_denied,
}
use my_ai_agent_fullstack_tr.Domain.Models.{Text}
use my_ai_agent_fullstack_tr.Storage.Rows.{Env}
use my_ai_agent_fullstack_tr.Storage.Table.{Table, lookup}

-- `class ToolRisk`, `class ToolPermission` and `class ExecutionMode` of domain.py
pub data ToolRisk : Type 0 where
  read write execute : ToolRisk

pub data ToolPermission : Type 0 where
  read write execute : ToolPermission

pub data ExecutionMode : Type 0 where
  plan execute : ExecutionMode

unfoldable pub ToolRisk-discrete : Discrete ToolRisk
ToolRisk-discrete = hlevel

unfoldable pub ToolPermission-discrete : Discrete ToolPermission
ToolPermission-discrete = hlevel

unfoldable pub ExecutionMode-discrete : Discrete ExecutionMode
ExecutionMode-discrete = hlevel

instance abbrev pub tool_risk_eq : Eq ToolRisk
tool_risk_eq = record { dec = ToolRisk-discrete }

instance abbrev pub tool_permission_eq : Eq ToolPermission
tool_permission_eq = record { dec = ToolPermission-discrete }

instance abbrev pub execution_mode_eq : Eq ExecutionMode
execution_mode_eq = record { dec = ExecutionMode-discrete }

-- `class ToolSpec`, as far as the policy reads it.
pub record ToolSpec : Type 0 where
  pub name : Text
  pub risk : ToolRisk
  pub required_permissions : List ToolPermission
  pub approval_required : Bool

-- `class ToolExecutionContext`, as far as the policy reads it.
pub record ToolExecutionContext : Type 0 where
  pub mode : ExecutionMode
  pub roles : List Text

-- `class PolicyEngine`: the fields that its `__init__` sets. The keys of the roles are casefolded.
pub record PolicyEngine : Type 0 where
  pub allowed_tools : List Text
  pub role_permissions : Table Text (List ToolPermission)
  pub approval_tools : List Text
  pub read_execution_limit : ℕ
  pub write_execution_limit : ℕ

-- The code of a `PolicyDecision`; it is allowed when the code is `GATE_ALLOWED`.
pub record PolicyDecision : Type 0 where
  pub allowed : Bool
  pub code : ErrorCode

unfoldable is_visible : PolicyEngine → Text → Bool
is_visible engine tool_name = contains tool_name engine.allowed_tools

-- `permissions_for`: the union over the roles, as a list.
unfoldable pub permissions_for : Env → PolicyEngine → List Text → List ToolPermission
permissions_for env engine [] = []
permissions_for env engine (r ∷ roles) =
    or_else (lookup (env.casefold r) engine.role_permissions) [] ++ permissions_for env engine roles

-- The difference of two sets.
unfoldable pub difference : List ToolPermission → List ToolPermission → List ToolPermission
difference [] granted = []
difference (p ∷ required) granted =
    let rest = difference required granted in if contains p granted then rest else p ∷ rest

unfoldable pub check_permission :
    Env → PolicyEngine → ToolExecutionContext → ToolSpec → PolicyDecision
unfolding permissions_for difference
check_permission env engine context spec =
    if difference spec.required_permissions (permissions_for env engine context.roles) /= []
    then record { allowed = false; code = gate_permission_denied }
    else record { allowed = true; code = gate_allowed }

unfoldable pub check_risk : ToolExecutionContext → ToolSpec → PolicyDecision
check_risk context spec =
    if context.mode == ExecutionMode.plan && spec.risk /= ToolRisk.read
    then record { allowed = false; code = gate_mode_denied }
    else if spec.risk /= ToolRisk.read && spec.required_permissions == []
    then record { allowed = false; code = gate_risk_denied }
    else record { allowed = true; code = gate_allowed }

unfoldable pub requires_approval : PolicyEngine → ToolSpec → Bool
requires_approval engine spec = spec.approval_required || contains spec.name engine.approval_tools

unfoldable execution_limit : PolicyEngine → ToolSpec → ℕ
execution_limit engine spec =
    if spec.risk == ToolRisk.read then engine.read_execution_limit else engine.write_execution_limit
