-- ===== src/Audit.antt =====
-- `class AuditStore` of week03_guarded-harness/src/guarded_harness/audit.py: the hash chain of the
-- events of each run. The two summaries of an event and their redaction are not modelled.
pub mod Chain
pub mod Tamper
use my_ai_agent_fullstack_tr.Base.{
  Bool, List, Option, [], false, get_last?, if◌then◌else◌, is_some, leb, length, list_eq, nat_eq,
  none, not, option_eq, pair_eq, some, true, ℕ, ◌&&◌, ◌+◌, ◌/=◌, ◌==◌, ◌||◌, ◌∷◌,
}
use my_ai_agent_fullstack_tr.Domain.ErrorCode.{
  ErrorCode, audit_chain_invalid, audit_sequence_conflict, state_not_found,
}
use my_ai_agent_fullstack_tr.Storage.Exec.{
  Exec, gets, modify, or_raise, pure, raise_if, validated, ◌>>=◌, ◌>>◌,
}
use my_ai_agent_fullstack_tr.Storage.Rows.{
  AuditEventDraft, AuditEventRecord, AuditPayload, AuditStatus, Db, Env,
}
use my_ai_agent_fullstack_tr.Storage.Table.{lookup}

-- `GENESIS_HASH`. Digests are numbers, and the code's sixty-four zeros are 0.
abbrev pub genesis_hash : ℕ
genesis_hash = 0

insert_by_sequence : AuditEventRecord → List AuditEventRecord → List AuditEventRecord
insert_by_sequence r [] = r ∷ []
insert_by_sequence r (x ∷ xs) =
    if leb r.payload.sequence x.payload.sequence then r ∷ x ∷ xs else x ∷ insert_by_sequence r xs

-- `SELECT * FROM audit_events WHERE run_id = ? ORDER BY sequence`
pub run_events : ℕ → List AuditEventRecord → List AuditEventRecord
unfolding insert_by_sequence
run_events run_id [] = []
run_events run_id (r ∷ rows) =
    let rest = run_events run_id rows in
    if r.payload.draft.run_id == run_id then insert_by_sequence r rest else rest

-- `AuditStore.head`: the last row in that order.
unfoldable pub head : ℕ → List AuditEventRecord → Option AuditEventRecord
unfolding run_events
head run_id rows = get_last? (run_events run_id rows)

-- `AuditEventDraft.model_post_init`: an error status needs a code.
abbrev is_error_status : AuditStatus → Bool
is_error_status AuditStatus.denied = true
is_error_status AuditStatus.failed = true
is_error_status AuditStatus.timed_out = true
is_error_status AuditStatus.unknown_result = true
is_error_status AuditStatus.blocked = true
is_error_status _ = false

abbrev pub draft_is_valid : AuditEventDraft → Bool
draft_is_valid d = not (is_error_status d.status) || is_some d.code

next_sequence : Option AuditEventRecord → ℕ
next_sequence none = 1
next_sequence (some r) = r.payload.sequence + 1

pub hash_after : Option AuditEventRecord → ℕ
hash_after none = genesis_hash
hash_after (some r) = r.event_hash

-- The record that `append` builds behind the previous one.
new_record : Env → AuditEventDraft → ℕ → Option AuditEventRecord → AuditEventRecord
unfolding next_sequence hash_after
new_record env d fingerprint previous =
    let p : AuditPayload = record {
      schema_version = 1;
      event_id = (d.run_id, next_sequence previous);
      sequence = next_sequence previous;
      occurred_at = env.clock 0;
      draft = d;
      actor = env.actor;
      workspace_fingerprint = fingerprint;
      prev_hash = hash_after previous;
    } in
    record { payload = p; event_hash = env.event_digest p }

-- The unique key of the table, the run and the sequence number.
has_event : ℕ → ℕ → List AuditEventRecord → Bool
has_event run_id sequence [] = false
has_event run_id sequence (r ∷ rows) =
    r.payload.draft.run_id == run_id && r.payload.sequence == sequence
    || has_event run_id sequence rows

insert_event : AuditEventRecord → Exec AuditEventRecord
unfolding has_event
insert_event r = do
  taken ← gets (λ db. has_event r.payload.draft.run_id r.payload.sequence db.audit_events)
  raise_if taken audit_sequence_conflict
  modify (λ db. record db { audit_events = r ∷ db.audit_events })
  pure r

-- `AuditStore.append`, with the validation of its draft.
unfoldable pub append : Env → AuditEventDraft → Exec AuditEventRecord
unfolding new_record insert_event head
append env d = do
  validated (draft_is_valid d)
  row ← or_raise (← gets (λ db. lookup d.run_id db.runs)) state_not_found
  previous ← gets (λ db. head d.run_id db.audit_events)
  insert_event (new_record env d row.run.workspace.baseline_fingerprint previous)

-- The loop of `verify_chain`: the code of the first row that does not fit, if any.
check_rows : (AuditPayload → ℕ) → ℕ → ℕ → List AuditEventRecord → Option ErrorCode
check_rows digest expected previous_hash [] = none
check_rows digest expected previous_hash (r ∷ rows) =
    if r.payload.sequence /= expected
    then some audit_sequence_conflict
    else if r.payload.prev_hash /= previous_hash
    then some audit_chain_invalid
    else if r.event_hash /= digest r.payload
    then some audit_chain_invalid
    else check_rows digest (expected + 1) r.event_hash rows

-- `class AuditChainReport`
pub record AuditChainReport : Type 0 where
  pub event_count : ℕ
  pub last_sequence : ℕ
  pub code : Option ErrorCode

last_sequence_of : Option AuditEventRecord → ℕ
last_sequence_of none = 0
last_sequence_of (some r) = r.payload.sequence

-- `AuditStore.verify_chain`; the report is valid when it has no code.
unfoldable pub verify_chain : Env → ℕ → Db → AuditChainReport
unfolding run_events check_rows last_sequence_of
verify_chain env run_id db =
    let rows = run_events run_id db.audit_events in
    record {
      event_count = length rows;
      last_sequence = last_sequence_of (get_last? rows);
      code = check_rows env.event_digest 1 genesis_hash rows;
    }
