-- ===== src/Approval/Decide.antt =====
-- The decision of an approver (approval.py).
use my_ai_agent_fullstack_tr.Base.{
  Bool, List, Option, [], contains, false, list_eq, map, nat_eq, none, not, option_eq, pair_eq,
  some, ℕ, ◌&&◌, ◌/=◌, ◌==◌, ◌||◌, ◌∷◌,
}
use my_ai_agent_fullstack_tr.Approval.{
  approval_event, materialize_expiry, required_approval, stable_code, stop_waiting, update_approval,
}
use my_ai_agent_fullstack_tr.Domain.ErrorCode.{
  approval_approver_denied, approval_conflict, approval_expired, approval_not_executable,
  approval_self_approval_denied,
}
use my_ai_agent_fullstack_tr.Domain.Models.{Approval, StableCode, Text, text}
use my_ai_agent_fullstack_tr.Domain.Status.{
  ApprovalDecision, ApprovalStatus, RunStatus, StopReason, approval_decision_eq, approval_status_eq,
  run_status_eq, stop_reason_eq,
}
use my_ai_agent_fullstack_tr.State.Access.{append_event, get_run, verify_lease}
use my_ai_agent_fullstack_tr.State.Runs.{transition_run}
use my_ai_agent_fullstack_tr.Storage.Exec.{Exec, pure, raise_if, ◌>>=◌, ◌>>◌}
use my_ai_agent_fullstack_tr.Storage.Rows.{
  AuditDecision, AuditEventDraft, AuditEventType, AuditStatus, Env, RuleId, later,
}

-- `class Approver` of domain.py
pub record Approver : Type 0 where
  pub actor : Text
  pub roles : List Text

-- `allowed.intersection(…)` is not empty.
abbrev pub holds_role : Env → List Text → List Text → Bool
holds_role env allowed [] = false
holds_role env allowed (r ∷ rs) =
    contains (env.casefold r) (map env.casefold allowed) || holds_role env allowed rs

-- What `_decide` checks once the expiry has been materialized.
unfoldable pub check_decision : Env → Approval → ℕ → Approver → Exec (Unit {0})
unfolding get_run
check_decision env a expected_revision approver = do
  raise_if (a.status == ApprovalStatus.expired) approval_expired
  raise_if (a.revision /= expected_revision) approval_conflict
  raise_if (a.status /= ApprovalStatus.pending) approval_not_executable
  raise_if (approver.actor /= env.actor) approval_approver_denied
  run_row ← get_run a.run_id
  raise_if (run_row.run.status /= RunStatus.waiting_approval) approval_not_executable
  raise_if (approver.actor == a.requested_by) approval_self_approval_denied
  raise_if (not (holds_role env a.allowed_approver_roles approver.roles)) approval_approver_denied

abbrev pub decided_status : ApprovalDecision → ApprovalStatus
decided_status ApprovalDecision.approve = ApprovalStatus.approved
decided_status ApprovalDecision.reject = ApprovalStatus.rejected

-- The reason's code: only a rejection has one.
unfoldable pub decision_reason : Env → ApprovalDecision → Option Text → Exec (Option StableCode)
unfolding stable_code
decision_reason env ApprovalDecision.approve reason = pure none
decision_reason env ApprovalDecision.reject reason = do
  v ← stable_code env reason
  pure (some (text v))

-- A rejection stops the run.
unfoldable pub stop_rejected : Env → ApprovalDecision → Approval → ℕ → ℕ → Exec (Unit {0})
unfolding get_run transition_run
stop_rejected env ApprovalDecision.approve a now token = pure tt
stop_rejected env ApprovalDecision.reject a now token = do
  row ← get_run a.run_id
  transition_run env a.run_id (stop_waiting StopReason.approval_rejected now row.revision) token
  pure tt

abbrev decided_event : Approval → ApprovalDecision → Option StableCode → AuditEventDraft
decided_event a ApprovalDecision.approve code =
    record (approval_event a AuditEventType.approval_decided AuditStatus.succeeded
      AuditDecision.allow code) { rule_id = some RuleId.approval_role_policy }
decided_event a ApprovalDecision.reject code =
    record (approval_event a AuditEventType.approval_decided AuditStatus.denied AuditDecision.deny
      code) { rule_id = some RuleId.approval_role_policy }

-- `ApprovalStore._decide`: `approve` passes no reason, `reject` passes one. The clock is read for the
-- decision, and once more for the expiry, since a decision gets past it on a pending approval only.
unfoldable pub decide : Env → ℕ → ℕ → Approver → ApprovalDecision → Option Text → ℕ → Exec Approval
unfolding verify_lease required_approval materialize_expiry update_approval check_decision
    decision_reason stop_rejected
decide env approval_id expected_revision approver decision reason token = do
  let now = env.clock 0
  row ← required_approval env approval_id
  verify_lease env row.run_id token now
  a ← materialize_expiry (later 1 env) row token
  check_decision env a expected_revision approver
  code ← decision_reason env decision reason
  update_approval approval_id
      (λ r. r.status == ApprovalStatus.pending && r.revision == expected_revision) approval_conflict
      now
      (λ r. record r {
        status = decided_status decision;
        decided_at = some now;
        decided_by = some approver.actor;
      })
  append_event (later 2 env) (decided_event a decision code)
  stop_rejected (later 3 env) decision a now token
  required_approval env approval_id
