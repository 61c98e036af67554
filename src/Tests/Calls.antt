-- ===== src/Tests/Calls.antt =====
-- The theorems on the tool calls and the audit chain, applied.
use my_ai_agent_fullstack_tr.Base.{
  List, Pair-discrete, [], arith, list_eq, nat_eq, none, option_eq, pair_eq, refl, some, ℕ_discrete,
  ◌+◌, ◌∷◌, ◌≡◌, ◌⊎◌,
}
use my_ai_agent_fullstack_tr.Audit.{append, head, run_events, verify_chain}
use my_ai_agent_fullstack_tr.Audit.Chain.{append-verify_chain}
use my_ai_agent_fullstack_tr.Audit.Tamper.{Broken, verify_chain_unique}
use my_ai_agent_fullstack_tr.Domain.Models.{ToolInvocation}
use my_ai_agent_fullstack_tr.Domain.Status.{
  InvocationStatus, RunStatus, invocation_status_eq, run_status_eq,
}
use my_ai_agent_fullstack_tr.Runtime.Invoke.{result}
use my_ai_agent_fullstack_tr.State.Access.{event}
use my_ai_agent_fullstack_tr.State.Invocations.{InvocationTransition, transition_invocation}
use my_ai_agent_fullstack_tr.State.Invocations.Lifecycle.{
  AllOrdered, Proceeds, transition_invocation-Proceeds,
}
use my_ai_agent_fullstack_tr.State.Invocations.Sequence.{
  CallOperation, after_calls, after_calls-AllOrdered,
}
use my_ai_agent_fullstack_tr.Storage.Exec.{ok}
use my_ai_agent_fullstack_tr.Storage.Rows.{
  AuditEventDraft, AuditEventRecord, AuditEventType, AuditStatus, Db, Env, ToolCallRow,
}
use my_ai_agent_fullstack_tr.Storage.Table.{lookup}
use my_ai_agent_fullstack_tr.Tests.World.{
  agent, at_time, call_in, lease_token, pending_approval, run_in, shared_steps, world,
}

abbrev env : Env
env = at_time 14 agent

abbrev going : Db
going = world (run_in RunStatus.running) (call_in InvocationStatus.prepared) pending_approval

abbrev begin : InvocationTransition
begin = record {
  expected_status = InvocationStatus.prepared;
  expected_revision = 1;
  target = InvocationStatus.started;
  result_summary = none;
  error_code = none;
}

abbrev begun_call : ToolInvocation
begun_call = record (call_in InvocationStatus.started) { updated_at = 14 }

abbrev begun : Db
begun = (transition_invocation env 1 20 begin lease_token going).1

transition_invocation-Proceeds_example :
    (before : ToolCallRow) × (lookup (1, 20) going.tool_calls ≡ some before)
    × Proceeds before.invocation.idempotent before.invocation.status InvocationStatus.started
    × (begun_call ≡ record before.invocation {
      status = InvocationStatus.started;
      result_summary = none;
      error_code = none;
      updated_at = 14;
    })
    × (lookup (1, 20) begun.tool_calls ≡ some (record { invocation = begun_call; revision = 2 }))
unfolding transition_invocation shared_steps
transition_invocation-Proceeds_example =
    transition_invocation-Proceeds env 1 20 begin lease_token going begun begun_call refl

going-AllOrdered : AllOrdered going
unfolding lookup Pair-discrete ℕ_discrete
going-AllOrdered = record { at = λ key row h. ground (arith, h) }

abbrev begin_twice : List (Env × CallOperation)
begin_twice =
    (env, CallOperation.transition_a_call 1 20 begin lease_token)
    ∷ (env, CallOperation.transition_a_call 1 20 begin lease_token)
    ∷ []

after_calls-AllOrdered_example : AllOrdered (after_calls begin_twice going)
after_calls-AllOrdered_example = after_calls-AllOrdered begin_twice going going-AllOrdered

abbrev draft : AuditEventDraft
draft = event 1 AuditEventType.tool_started AuditStatus.started

append-verify_chain_example :
    let n = (verify_chain env 1 going).event_count in
    let (result, db') = append env draft going in
    (r : AuditEventRecord) × (result ≡ ok r)
    × (head 1 db'.audit_events ≡ some r)
    × (verify_chain env 1 db' ≡ record { event_count = n + 1; last_sequence = n + 1; code = none })
unfolding verify_chain shared_steps
append-verify_chain_example = append-verify_chain env draft going refl refl refl

verify_chain_unique_example :
    (run_events 1 begun.audit_events ≡ run_events 1 begun.audit_events) ⊎ Broken env.event_digest
unfolding verify_chain transition_invocation shared_steps
verify_chain_unique_example = verify_chain_unique env 1 begun begun refl refl refl
