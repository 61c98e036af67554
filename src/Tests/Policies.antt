-- ===== src/Tests/Policies.antt =====
-- The theorems on the policy, applied.
use my_ai_agent_fullstack_tr.Base.{
  List-discrete, [], contains, list_eq, nat_eq, option_eq, pair_eq, refl, true, ℕ_discrete, ◌↔◌,
  ◌∷◌, ◌≡◌,
}
use my_ai_agent_fullstack_tr.Policy.{
  ExecutionMode, PolicyEngine, ToolExecutionContext, ToolPermission, ToolPermission-discrete,
  ToolRisk, ToolSpec, check_permission, execution_mode_eq, tool_permission_eq, tool_risk_eq,
}
use my_ai_agent_fullstack_tr.Policy.Grants.{GrantedBy, check_permission_iff}
use my_ai_agent_fullstack_tr.Storage.Table.{lookup}
use my_ai_agent_fullstack_tr.Tests.World.{agent, at_time, lead, reviewer}

abbrev engine : PolicyEngine
engine = record {
  allowed_tools = agent ∷ [];
  role_permissions = (lead, ToolPermission.read ∷ ToolPermission.write ∷ []) ∷ [];
  approval_tools = [];
  read_execution_limit = 2;
  write_execution_limit = 1;
}

abbrev context : ToolExecutionContext
context = record { mode = ExecutionMode.execute; roles = reviewer ∷ lead ∷ [] }

abbrev writer : ToolSpec
writer = record {
  name = agent;
  risk = ToolRisk.write;
  required_permissions = ToolPermission.write ∷ [];
  approval_required = true;
}

check_permission_iff_example :
    ((check_permission (at_time 14 agent) engine context writer).allowed ≡ true) ↔ (
      (p : ToolPermission)
      → contains p (ToolPermission.write ∷ []) ≡ true
      → GrantedBy (at_time 14 agent) engine p (reviewer ∷ lead ∷ []))
check_permission_iff_example = check_permission_iff (at_time 14 agent) engine context writer

writer_is_permitted : (check_permission (at_time 14 agent) engine context writer).allowed ≡ true
unfolding check_permission ToolPermission-discrete List-discrete lookup ℕ_discrete
writer_is_permitted = refl
