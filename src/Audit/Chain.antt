-- ===== src/Audit/Chain.antt =====
-- `append` extends the chain of its run by one valid event, and leaves the other runs' chains alone.
use my_ai_agent_fullstack_tr.Base.{
  List, [], arith, false, get_last?, length, list_eq, nat_eq, none, option_eq, pair_eq, refl, some,
  suc, true, ℕ, ◌++◌, ◌+◌, ◌<◌, ◌∷◌, ◌≡◌, ◌≤◌,
}
use my_ai_agent_fullstack_tr.Audit.{
  append, check_rows, draft_is_valid, genesis_hash, has_event, hash_after, head, insert_by_sequence,
  new_record, next_sequence, run_events, verify_chain,
}
use my_ai_agent_fullstack_tr.Storage.Exec.{ok, ◌>>=◌}
use my_ai_agent_fullstack_tr.Storage.Rows.{
  AuditEventDraft, AuditEventRecord, AuditPayload, Db, Env, RunRow,
}
use my_ai_agent_fullstack_tr.Storage.Table.{lookup}

-- A run's chain as `verify_chain` accepts it.
abbrev IsChain : (AuditPayload → ℕ) → ℕ → ℕ → List AuditEventRecord → Type 0
IsChain digest n h rows = check_rows digest n h rows ≡ none

abbrev hash_of_last : ℕ → List AuditEventRecord → ℕ
hash_of_last h [] = h
hash_of_last h (r ∷ rows) = hash_of_last r.event_hash rows

-- Every sequence number lies below `n`.
abbrev AllBelow : ℕ → List AuditEventRecord → Type 0
AllBelow n [] = Unit
AllBelow n (r ∷ rows) = (r.payload.sequence < n) × AllBelow n rows

AllBelow-mono : (m n : ℕ) (rows : List AuditEventRecord) → m ≤ n → AllBelow m rows → AllBelow n rows
AllBelow-mono m n [] h b = tt
AllBelow-mono m n (r ∷ rows) h b = (omega arith, AllBelow-mono m n rows h b.1)

module _ (digest : AuditPayload → ℕ) where
  IsChain-AllBelow :
      (n h : ℕ) (rows : List AuditEventRecord)
      → IsChain digest n h rows
      → AllBelow (n + length rows) rows
  unfolding check_rows
  IsChain-AllBelow n h [] c = tt
  IsChain-AllBelow n h (r ∷ rows) c = ground (
    arith,
    IsChain-AllBelow (n + 1) r.event_hash rows,
    AllBelow-mono (n + 1 + length rows) (n + suc (length rows)) rows,
  )

  IsChain-snoc :
      (n h : ℕ) (rows : List AuditEventRecord) (r : AuditEventRecord)
      → IsChain digest n h rows
      → r.payload.sequence ≡ n + length rows
      → r.payload.prev_hash ≡ hash_of_last h rows
      → r.event_hash ≡ digest r.payload
      → IsChain digest n h (rows ++ r ∷ [])
  unfolding check_rows
  IsChain-snoc n h [] r c s p e = ground arith
  IsChain-snoc n h (x ∷ rows) r c s p e = ground (arith, IsChain-snoc (n + 1) x.event_hash rows r)

-- The row that `ORDER BY sequence` puts last.
insert_by_sequence-last :
    (n : ℕ) (rows : List AuditEventRecord) (r : AuditEventRecord)
    → AllBelow n rows
    → n ≤ r.payload.sequence
    → insert_by_sequence r rows ≡ rows ++ r ∷ []
unfolding insert_by_sequence
insert_by_sequence-last n [] r b h = refl
insert_by_sequence-last n (x ∷ rows) r b h = ground (arith, insert_by_sequence-last n rows r b.1 h)

-- What a valid chain says of its last row.
last_sequence_lem :
    (digest : AuditPayload → ℕ) (n h : ℕ) (r : AuditEventRecord) (rows : List AuditEventRecord)
    → IsChain digest n h (r ∷ rows)
    → (l : AuditEventRecord) × (get_last? (r ∷ rows) ≡ some l)
      × (l.payload.sequence ≡ n + length rows)
      × (l.event_hash ≡ hash_of_last h (r ∷ rows))
unfolding check_rows
last_sequence_lem digest n h r [] c = (r, refl, ground arith, refl)
last_sequence_lem digest n h r (x ∷ rows) c =
    let (l, e, s, q) = last_sequence_lem digest (n + 1) r.event_hash x rows (ground arith) in
    (l, e, omega arith, q)

insert_by_sequence-AllBelow :
    (n : ℕ) (rows : List AuditEventRecord) (r : AuditEventRecord)
    → AllBelow n (insert_by_sequence r rows)
    → (r.payload.sequence < n) × AllBelow n rows
unfolding insert_by_sequence
insert_by_sequence-AllBelow n [] r b = (b.0, tt)
insert_by_sequence-AllBelow n (x ∷ rows) r b = ground (arith, insert_by_sequence-AllBelow n rows r)

-- A row of the run with a new sequence number meets no other.
has_event-AllBelow :
    (run_id n : ℕ) (rows : List AuditEventRecord)
    → AllBelow n (run_events run_id rows)
    → has_event run_id n rows ≡ false
unfolding has_event run_events
has_event-AllBelow run_id n [] b = refl
has_event-AllBelow run_id n (r ∷ rows) b = ground (
  arith,
  has_event-AllBelow run_id n rows,
  insert_by_sequence-AllBelow n (run_events run_id rows) r,
)

-- `append` numbers its event behind a valid chain.
new_record_fits :
    (env : Env) (d : AuditEventDraft) (fingerprint : ℕ) (rows : List AuditEventRecord)
    → IsChain env.event_digest 1 genesis_hash rows
    → let r = new_record env d fingerprint (get_last? rows) in
      (r.payload.sequence ≡ 1 + length rows)
      × (r.payload.prev_hash ≡ hash_of_last genesis_hash rows)
      × (r.event_hash ≡ env.event_digest r.payload)
unfolding new_record
new_record_fits env d fingerprint [] c = (omega arith, refl, refl)
new_record_fits env d fingerprint (x ∷ rows) c =
    let (l, e, s, q) = last_sequence_lem env.event_digest 1 genesis_hash x rows c in
    rw (e, next_sequence, hash_after) (omega arith, q, refl)

length-snoc :
    (rows : List AuditEventRecord) (r : AuditEventRecord)
    → length (rows ++ r ∷ []) ≡ length rows + 1
length-snoc [] r = omega arith
length-snoc (x ∷ rows) r = omega (arith, length-snoc rows r)

get_last?-snoc :
    (rows : List AuditEventRecord) (r : AuditEventRecord) → get_last? (rows ++ r ∷ []) ≡ some r
get_last?-snoc [] r = refl
get_last?-snoc (x ∷ []) r = refl
get_last?-snoc (x ∷ y ∷ rows) r = get_last?-snoc (y ∷ rows) r

-- The events of the run behind a valid chain, after one more row with a fitting number.
run_events-cons :
    (digest : AuditPayload → ℕ) (run_id : ℕ) (rows : List AuditEventRecord) (r : AuditEventRecord)
    → r.payload.draft.run_id ≡ run_id
    → IsChain digest 1 genesis_hash (run_events run_id rows)
    → r.payload.sequence ≡ 1 + length (run_events run_id rows)
    → run_events run_id (r ∷ rows) ≡ run_events run_id rows ++ r ∷ []
unfolding run_events
run_events-cons digest run_id rows r own c s =
    let old = run_events run_id rows in
    ground (
      arith,
      insert_by_sequence-last (1 + length old) old r (IsChain-AllBelow digest 1 genesis_hash old c)
          (omega (arith, s)),
    )

append_lem :
    (env : Env) (d : AuditEventDraft) (db : Db) {row : RunRow}
    → lookup d.run_id db.runs ≡ some row
    → draft_is_valid d ≡ true
    → IsChain env.event_digest 1 genesis_hash (run_events d.run_id db.audit_events)
    → let r =
        new_record env d row.run.workspace.baseline_fingerprint
          (get_last? (run_events d.run_id db.audit_events)) in
      append env d db ≡ (ok r, record db { audit_events = r ∷ db.audit_events })
unfolding append ◌>>=◌
append_lem env d db {row} found valid c =
    let old = run_events d.run_id db.audit_events in
    let fits = new_record_fits env d row.run.workspace.baseline_fingerprint old c in
    let fresh =
      has_event-AllBelow d.run_id (1 + length old) db.audit_events
        (IsChain-AllBelow env.event_digest 1 genesis_hash old c) in
    ground (arith, found, valid, fits, fresh)

-- An event with a valid draft of a run that exists and whose chain is valid is recorded: it becomes
-- the last of the run's events, and the chain is valid again, one event longer.
pub append-verify_chain :
    (env : Env) (d : AuditEventDraft) (db : Db) {row : RunRow}
    → lookup d.run_id db.runs ≡ some row
    → draft_is_valid d ≡ true
    → (verify_chain env d.run_id db).code ≡ none
    → let n = (verify_chain env d.run_id db).event_count in
      let (result, db') = append env d db in
      (r : AuditEventRecord) × (result ≡ ok r)
      × (head d.run_id db'.audit_events ≡ some r)
      × (verify_chain env d.run_id db'
          ≡ record { event_count = n + 1; last_sequence = n + 1; code = none })
unfolding verify_chain head
append-verify_chain env d db {row} found valid c =
    let old = run_events d.run_id db.audit_events in
    let r = new_record env d row.run.workspace.baseline_fingerprint (get_last? old) in
    let (s, p, e) = new_record_fits env d row.run.workspace.baseline_fingerprint old c in
    let cons =
      run_events-cons env.event_digest d.run_id db.audit_events r (unfold new_record in refl) c s in
    let chain = IsChain-snoc env.event_digest 1 genesis_hash old r c s p e in
    rw (append_lem env d db found valid c) (
      r,
      refl,
      rw cons (get_last?-snoc old r),
      rw (cons, get_last?-snoc old r, chain, length-snoc old r) (ground (arith, s)),
    )
