-- ===== src/State/Access.antt =====
-- What the operations of state_store.py share: reads, the check of the lease, the update of a run's
-- row, and the audit event. The redaction of texts is not modelled.
use my_ai_agent_fullstack_tr.Base.{
  Option, Option-cases, arith, inl, inr, leb, list_eq, nat_eq, none, option_eq, pair_eq, some, true,
  ℕ, ◌+◌, ◌/=◌, ◌<◌, ◌≡◌, ◌≢◌,
}
use my_ai_agent_fullstack_tr.Audit.{append}
use my_ai_agent_fullstack_tr.Domain.ErrorCode.{
  state_conflict, state_lease_expired, state_lease_invalid, state_not_found,
}
use my_ai_agent_fullstack_tr.Domain.Models.{Run, run_is_valid}
use my_ai_agent_fullstack_tr.Domain.Status.{GatePhase}
use my_ai_agent_fullstack_tr.Storage.Exec.{
  Exec, err, gets, modify, ok, or_raise, pure, raise_if, raised, validated, ◌>>=◌, ◌>>◌,
}
use my_ai_agent_fullstack_tr.Storage.Rows.{
  AuditDecision, AuditEventDraft, AuditEventType, AuditStatus, Db, Env, LeaseRow, RunRow,
}
use my_ai_agent_fullstack_tr.Storage.Table.{lookup, put}

-- `_verify_lease`
unfoldable pub verify_lease : Env → ℕ → ℕ → ℕ → Exec (Unit {0})
verify_lease env run_id token now = do
  lease ← or_raise (← gets (λ db. lookup run_id db.run_leases)) state_lease_invalid
  raise_if (lease.token_digest /= env.token_digest token) state_lease_invalid
  raise_if (leb lease.expires_at now) state_lease_expired

-- `get_run` and `_get_run_revision`: the run's row, whose model is validated again.
unfoldable pub get_run : ℕ → Exec RunRow
get_run run_id = do
  row ← or_raise (← gets (λ db. lookup run_id db.runs)) state_not_found
  validated (run_is_valid row.run)
  pure row

-- `UPDATE runs SET … WHERE run_id = ? AND revision = ?`, which must change one row. The revision
-- goes up by one.
unfoldable pub update_run : ℕ → ℕ → (Run → Run) → Exec (Unit {0})
update_run run_id revision f = do
  row ← or_raise (← gets (λ db. lookup run_id db.runs)) state_conflict
  raise_if (row.revision /= revision) state_conflict
  modify (λ db. record db {
    runs = put run_id (record { run = f row.run; revision = row.revision + 1 }) db.runs;
  })

-- `_touch_run` for a step identifier or none.
unfoldable pub touch_run : ℕ → ℕ → ℕ → Option ℕ → Exec (Unit {0})
unfolding update_run
touch_run run_id revision now none = update_run run_id revision (λ r. record r { updated_at = now })
touch_run run_id revision now (some step_id) =
    update_run run_id revision (λ r. record r { updated_at = now; current_step_id = some step_id })

-- An event of the store, with the fields that most of them leave out.
abbrev pub event : ℕ → AuditEventType → AuditStatus → AuditEventDraft
event run_id event_type status = record {
  run_id = run_id;
  event_type = event_type;
  phase = GatePhase.execution;
  status = status;
  decision = AuditDecision.not_applicable;
  code = none;
  step_id = none;
  tool_call_id = none;
  approval_id = none;
  tool_name = none;
  rule_id = none;
  evidence_ref = none;
}

-- `_append_event`
unfoldable pub append_event : Env → AuditEventDraft → Exec (Unit {0})
append_event env d = do append env d; pure tt

-- The event is the only thing that `_append_event` writes.
append_event-frame :
    (env : Env) (d : AuditEventDraft) (db : Db)
    → (append_event env d db).1
      ≡ record db { audit_events = (append_event env d db).1.audit_events }
unfolding append_event append ◌>>=◌
append_event-frame env d db = ground arith

-- What the shared steps have checked when they return.
pub verify_lease-returns :
    (env : Env) (run_id token now : ℕ) (db db' : Db)
    → verify_lease env run_id token now db ≡ (ok tt, db')
    → (lease : LeaseRow) × (lookup run_id db.run_leases ≡ some lease)
      × (lease.token_digest ≡ env.token_digest token)
      × (now < lease.expires_at)
      × (db' ≡ db)
unfolding verify_lease ◌>>=◌
verify_lease-returns env run_id token now db db' h =
    elim (Option-cases (lookup run_id db.run_leases)) [
      | inl missing ↦ absurd (ground (arith, missing))
      | inr (lease, found) ↦
          (lease, found, ground (arith, found), ground (arith, found), ground (arith, found))
    ]

pub get_run-returns :
    (run_id : ℕ) (db db' : Db) (row : RunRow)
    → get_run run_id db ≡ (ok row, db')
    → (lookup run_id db.runs ≡ some row) × (run_is_valid row.run ≡ true) × (db' ≡ db)
unfolding get_run ◌>>=◌
get_run-returns run_id db db' row h = elim (Option-cases (lookup run_id db.runs)) [
  | inl missing ↦ absurd (ground (arith, missing))
  | inr (r, found) ↦ ground (arith, found)
]

pub update_run-returns :
    (run_id revision : ℕ) (f : Run → Run) (db db' : Db)
    → update_run run_id revision f db ≡ (ok tt, db')
    → (row : RunRow) × (lookup run_id db.runs ≡ some row)
      × (row.revision ≡ revision)
      × (db' ≡ record db {
        runs = put run_id (record { run = f row.run; revision = row.revision + 1 }) db.runs;
      })
unfolding update_run ◌>>=◌
update_run-returns run_id revision f db db' h = elim (Option-cases (lookup run_id db.runs)) [
  | inl missing ↦ absurd (ground (arith, missing))
  | inr (row, found) ↦ (row, found, ground (arith, found), ground (arith, found))
]

pub append_event-returns :
    (env : Env) (d : AuditEventDraft) (db db' : Db)
    → append_event env d db ≡ (ok tt, db')
    → db' ≡ record db { audit_events = db'.audit_events }
append_event-returns env d db db' h = ground (arith, append_event-frame env d db)

-- The database after one update of the run's row and one event, with reads before and behind them.
pub update_then_event :
    (run_id : ℕ) (f : Run → Run) (db d3 d4 d5 db' : Db) (row row' : RunRow)
    → d3 ≡ db
    → lookup run_id db.runs ≡ some row
    → lookup run_id d3.runs ≡ some row'
    → d4 ≡ record d3 {
      runs = put run_id (record { run = f row'.run; revision = row'.revision + 1 }) d3.runs;
    }
    → d5 ≡ record d4 { audit_events = d5.audit_events }
    → db' ≡ d5
    → db' ≡ record db {
      runs = put run_id (record { run = f row.run; revision = row.revision + 1 }) db.runs;
      audit_events = db'.audit_events;
    }
update_then_event run_id f db d3 d4 d5 db' row row' e3 p q e4 e5 e6 = ground arith

-- The check of a lease, by the lease that is stored.
pub verify_lease_passes :
    (env : Env) (run_id token now : ℕ) (db : Db) (lease : LeaseRow)
    → lookup run_id db.run_leases ≡ some lease
    → lease.token_digest ≡ env.token_digest token
    → now < lease.expires_at
    → verify_lease env run_id token now db ≡ (ok tt, db)
unfolding verify_lease ◌>>=◌
verify_lease_passes env run_id token now db lease found same live = ground arith

pub verify_lease_refuses :
    (env : Env) (run_id token now : ℕ) (db : Db) (lease : LeaseRow)
    → lookup run_id db.run_leases ≡ some lease
    → lease.token_digest ≢ env.token_digest token
    → verify_lease env run_id token now db ≡ (err (raised state_lease_invalid), db)
unfolding verify_lease ◌>>=◌
verify_lease_refuses env run_id token now db lease found other = ground arith
