-- ===== src/Runtime/Approvals.antt =====
-- `class ApprovalStore` of tool_governance_demo.py: an approval is for one use, by one user, of one
-- tool with the same arguments.
use my_ai_agent_fullstack_tr.Base.{
  Bool, Option, [], false, if◌then◌else◌, leb, list_eq, nat_eq, none, not, option_eq, or_else,
  pair_eq, some, true, ℕ, ◌&&◌, ◌+◌, ◌==◌,
}
use my_ai_agent_fullstack_tr.Domain.Models.{Text}
use my_ai_agent_fullstack_tr.Runtime.{ApprovalRecord, ArgsModel, ExecutionContext, Outside, Shared}
use my_ai_agent_fullstack_tr.Storage.Table.{Table, lookup, put}

unfoldable pub approve : Outside → Text → ExecutionContext → Text → ArgsModel → ℕ → Shared → Shared
approve out approval_id context name args ttl_ms s = record s {
  approvals =
      put approval_id
        (record {
          user_id = context.user_id;
          tenant_id = context.tenant_id;
          tool_name = name;
          digest = out.approval_digest name args;
          expires_at = out.time_ms + ttl_ms;
          used = false;
        })
        s.approvals;
}

-- The condition `valid` of `consume`.
abbrev pub is_valid : Outside → ExecutionContext → Text → ArgsModel → Option ApprovalRecord → Bool
is_valid out context name args none = false
is_valid out context name args (some r) =
    not r.used
    && leb out.time_ms r.expires_at
    && r.user_id == context.user_id
    && r.tenant_id == context.tenant_id
    && r.tool_name == name
    && r.digest == out.approval_digest name args

-- `record.used = True`
abbrev pub mark_used :
    Text → Option ApprovalRecord → Table Text ApprovalRecord → Table Text ApprovalRecord
mark_used id none t = t
mark_used id (some r) t = put id (record r { used = true }) t

unfoldable pub consume_approval :
    Outside → ExecutionContext → Text → ArgsModel → Shared → Bool × Shared
consume_approval out context name args s =
    let id = or_else context.approval_id [] in
    let found = lookup id s.approvals in
    if is_valid out context name args found
    then (true, record s { approvals = mark_used id found s.approvals })
    else (false, s)
