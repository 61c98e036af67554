-- ===== src/Tests/Approvals.antt =====
-- The theorems on the approvals, applied.
use my_ai_agent_fullstack_tr.Base.{
  List, [], list_eq, nat_eq, none, option_eq, pair_eq, refl, some, ℕ_discrete, ◌∷◌, ◌≡◌, ◌≤◌,
}
use my_ai_agent_fullstack_tr.Approval.Claim.{claim, consume, invalidate}
use my_ai_agent_fullstack_tr.Approval.Commands.{Command, execute, execute-Evolves}
use my_ai_agent_fullstack_tr.Approval.Consumption.{Consumed, consume-Consumed}
use my_ai_agent_fullstack_tr.Approval.Decide.{Approver, decide}
use my_ai_agent_fullstack_tr.Approval.Decision.{Decided, decide-Decided}
use my_ai_agent_fullstack_tr.Approval.Diagram.{Evolves}
use my_ai_agent_fullstack_tr.Approval.Execution.{Claimed, claim-Claimed}
use my_ai_agent_fullstack_tr.Approval.Invalidation.{Invalidated, invalidate-Invalidated}
use my_ai_agent_fullstack_tr.Approval.Once.{claims, claims_at_most_once}
use my_ai_agent_fullstack_tr.Approval.Rejection.{Rejected, decide-Rejected}
use my_ai_agent_fullstack_tr.Domain.Models.{Approval}
use my_ai_agent_fullstack_tr.Domain.Status.{
  ApprovalDecision, ApprovalStatus, InvocationStatus, RunStatus, approval_decision_eq,
  approval_status_eq, invocation_status_eq, run_status_eq,
}
use my_ai_agent_fullstack_tr.Storage.Exec.{transaction}
use my_ai_agent_fullstack_tr.Storage.Rows.{Db, Env}
use my_ai_agent_fullstack_tr.Storage.Table.{lookup}
use my_ai_agent_fullstack_tr.Tests.World.{
  agent, approved_approval, at_time, call_in, claimed_approval, lead, lease_token, pending_approval,
  reviewer, run_in, shared_steps, world,
}

abbrev waiting : Approval → Db
waiting a = world (run_in RunStatus.waiting_approval) (call_in InvocationStatus.prepared) a

abbrev by_reviewer : Approver
by_reviewer = record { actor = reviewer; roles = lead ∷ [] }

abbrev decided : Approval
decided = record pending_approval {
  status = ApprovalStatus.approved;
  revision = 1;
  decided_at = some 14;
  decided_by = some reviewer;
}

abbrev after_approve : Db
after_approve =
    (decide (at_time 14 reviewer) 8 0 by_reviewer ApprovalDecision.approve none lease_token
      (waiting pending_approval)).1

decide-Decided_example :
    (a : Approval) × (a.revision ≡ 0)
    × Decided
        (at_time 14 reviewer)
        8
        by_reviewer
        ApprovalDecision.approve
        (waiting pending_approval)
        decided
        after_approve
        a
unfolding decide shared_steps
decide-Decided_example =
    decide-Decided (at_time 14 reviewer) 8 0 by_reviewer ApprovalDecision.approve none lease_token
      (waiting pending_approval) after_approve decided refl

abbrev claimed : Approval
claimed = record approved_approval {
  status = ApprovalStatus.claimed;
  revision = 2;
  claimed_at = some 14;
  execution_intent_id = some 20;
}

abbrev after_claiming : Db
after_claiming = (claim (at_time 14 agent) 8 1 20 lease_token (waiting approved_approval)).1

claim-Claimed_example :
    (a : Approval) × (a.revision ≡ 1)
    × Claimed (at_time 14 agent) 8 20 (waiting approved_approval) claimed after_claiming a
unfolding claim shared_steps
claim-Claimed_example =
    claim-Claimed (at_time 14 agent) 8 1 20 lease_token (waiting approved_approval) after_claiming
      claimed refl

abbrev finished : Db
finished = world (run_in RunStatus.running) (call_in InvocationStatus.succeeded) claimed_approval

abbrev consumed : Approval
consumed = record claimed_approval {
  status = ApprovalStatus.consumed;
  revision = 3;
  consumed_at = some 14;
}

abbrev after_consuming : Db
after_consuming =
    (consume (at_time 14 agent) 8 2 20 InvocationStatus.succeeded none lease_token finished).1

consume-Consumed_example :
    (a : Approval) × (a.revision ≡ 2)
    × Consumed (at_time 14 agent) 8 InvocationStatus.succeeded finished consumed after_consuming a
unfolding consume shared_steps
consume-Consumed_example =
    consume-Consumed (at_time 14 agent) 8 2 20 InvocationStatus.succeeded none lease_token finished
      after_consuming consumed refl

abbrev invalidated : Approval
invalidated = record claimed_approval {
  status = ApprovalStatus.invalidated;
  revision = 3;
  claimed_at = none;
  execution_intent_id = none;
}

abbrev after_invalidating : Db
after_invalidating =
    (invalidate (at_time 14 agent) 8 2 (some agent) lease_token (waiting claimed_approval)).1

invalidate-Invalidated_example :
    (a : Approval) × (a.revision ≡ 2)
    × Invalidated (at_time 14 agent) 8 (waiting claimed_approval) invalidated after_invalidating a
unfolding invalidate shared_steps
invalidate-Invalidated_example =
    invalidate-Invalidated (at_time 14 agent) 8 2 (some agent) lease_token
      (waiting claimed_approval) after_invalidating invalidated refl

-- The approval is granted.
execute-Evolves_example :
    (a' : Approval) × (lookup 8
        (transaction
          (at_time 85 reviewer)
          (execute (Command.on_decide 8 0 by_reviewer ApprovalDecision.approve none lease_token))
          (waiting pending_approval)).1.approvals
      ≡ some a')
    × Evolves pending_approval a'
unfolding lookup ℕ_discrete
execute-Evolves_example =
    execute-Evolves (Command.on_decide 8 0 by_reviewer ApprovalDecision.approve none lease_token)
      (at_time 85 reviewer) (waiting pending_approval) 8 pending_approval refl

-- Two claims of the approval in a row.
abbrev two_claims : List (Command × Env)
two_claims =
    (Command.on_claim 8 1 20 lease_token, at_time 14 agent)
    ∷ (Command.on_claim 8 2 20 lease_token, at_time 15 agent)
    ∷ []

claims_at_most_once_example : claims 8 two_claims (waiting approved_approval) ≤ 1
claims_at_most_once_example = claims_at_most_once 8 two_claims (waiting approved_approval)

one_of_two_claims : claims 8 two_claims (waiting approved_approval) ≡ 1
unfolding claims claim shared_steps
one_of_two_claims = refl

abbrev refused : Approval
refused = record decided { status = ApprovalStatus.rejected }

abbrev after_reject : Db
after_reject =
    (decide (at_time 14 reviewer) 8 0 by_reviewer ApprovalDecision.reject (some lead) lease_token
      (waiting pending_approval)).1

decide-Rejected_example : Rejected 1 after_reject
unfolding decide shared_steps
decide-Rejected_example =
    decide-Rejected (at_time 14 reviewer) 8 0 by_reviewer (some lead) lease_token
      (waiting pending_approval) after_reject refused refl
