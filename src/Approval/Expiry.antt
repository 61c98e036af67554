-- ===== src/Approval/Expiry.antt =====
-- What the shared steps of the approvals' operations have checked and written when they return, up to
-- the expiry.
use my_ai_agent_fullstack_tr.Base.{
  Bool, Option-cases, ap, arith, false, if◌then◌else◌, inl, inr, leb, list_eq, nat_eq, option_eq,
  pair_eq, refl, some, subst, sym, true, ℕ, ◌&&◌, ◌+◌, ◌<◌, ◌==◌, ◌∙◌, ◌≡◌, ◌≢◌, ◌≤◌, ◌⊎◌,
}
use my_ai_agent_fullstack_tr.Approval.{
  approval_is_valid, expire, is_active, materialize_expiry, required_approval, stop_expired,
  stop_waiting, update_approval, when,
}
use my_ai_agent_fullstack_tr.Domain.ErrorCode.{ErrorCode, approval_conflict}
use my_ai_agent_fullstack_tr.Domain.Models.{Approval, Run}
use my_ai_agent_fullstack_tr.Domain.Status.{
  ApprovalStatus, StopReason, approval_status_eq, stop_reason_eq,
}
use my_ai_agent_fullstack_tr.State.Access.{append_event-returns, get_run-returns}
use my_ai_agent_fullstack_tr.State.Runs.{RunTransition, transition_run}
use my_ai_agent_fullstack_tr.State.Runs.Outcome.{transition_run-Transitioned}
use my_ai_agent_fullstack_tr.Storage.Exec.{ok, pure, ◌>>=◌}
use my_ai_agent_fullstack_tr.Storage.Inversion.{bind-returns, pure-returns}
use my_ai_agent_fullstack_tr.Storage.Rows.{Db, Env, later}
use my_ai_agent_fullstack_tr.Storage.Table.{Table, lookup, lookup-put_self, put}

pub required_approval-returns :
    (env : Env) (approval_id : ℕ) (db db' : Db) (a : Approval)
    → required_approval env approval_id db ≡ (ok a, db')
    → (lookup approval_id db.approvals ≡ some a) × (approval_is_valid env a ≡ true) × (db' ≡ db)
unfolding required_approval ◌>>=◌
required_approval-returns env approval_id db db' a h =
    elim (Option-cases (lookup approval_id db.approvals)) [
      | inl missing ↦ absurd (ground (arith, missing))
      | inr (row, found) ↦ ground (arith, found)
    ]

pub update_approval-returns :
    (approval_id : ℕ) (fits : Approval → Bool) (code : ErrorCode) (now : ℕ)
    (f : Approval → Approval) (db db' : Db)
    → update_approval approval_id fits code now f db ≡ (ok tt, db')
    → (row : Approval) × (lookup approval_id db.approvals ≡ some row)
      × (fits row ≡ true)
      × (row.requested_at ≤ now)
      × (db' ≡ record db {
        approvals = put approval_id (record (f row) { revision = row.revision + 1 }) db.approvals;
      })
unfolding update_approval ◌>>=◌
update_approval-returns approval_id fits code now f db db' h =
    elim (Option-cases (lookup approval_id db.approvals)) [
      | inl missing ↦ absurd (ground (arith, missing))
      | inr (row, found) ↦
          (row, found, ground (arith, found), ground (arith, found), ground (arith, found))
    ]

-- The update of a run's row leaves the approvals.
pub transition_run-approvals :
    (env : Env) (run_id : ℕ) (t : RunTransition) (token : ℕ) (db db' : Db) (r : Run)
    → transition_run env run_id t token db ≡ (ok r, db')
    → db'.approvals ≡ db.approvals
transition_run-approvals env run_id t token db db' r h =
    let (row, done) = transition_run-Transitioned env run_id t token db db' r h in
    ap (λ (d : Db). d.approvals) done.after

when-approvals :
    (b : Bool) (env : Env) (run_id : ℕ) (t : RunTransition) (token : ℕ) (db db' : Db)
    → when b (transition_run env run_id t token) db ≡ (ok tt, db')
    → db'.approvals ≡ db.approvals
when-approvals true env run_id t token db db' h =
    let (r, d1, b1, h1) = bind-returns _ _ db h in
    ap (λ (d : Db). d.approvals) (pure-returns _ d1 h1).1
    ∙ transition_run-approvals env run_id t token db d1 r b1
when-approvals false env run_id t token db db' h =
    ap (λ (d : Db). d.approvals) (pure-returns _ db h).1

stop_expired-approvals :
    (env : Env) (a : Approval) (now token : ℕ) (db db' : Db)
    → stop_expired env a now token db ≡ (ok tt, db')
    → db'.approvals ≡ db.approvals
unfolding stop_expired
stop_expired-approvals env a now token db db' h =
    let (row, d1, b1, h1) = bind-returns _ _ db h in
    let (_, _, e1) = get_run-returns a.run_id db d1 row b1 in
    when-approvals _ env a.run_id (stop_waiting StopReason.approval_expired now row.revision) token
      d1 db' h1
    ∙ ap (λ (d : Db). d.approvals) e1

-- What is read from a table after it was written.
read_back :
    (approval_id : ℕ) (read written : Approval) (before after : Table ℕ Approval)
    → after ≡ put approval_id written before
    → lookup approval_id after ≡ some read
    → read ≡ written
read_back approval_id read written before after e h =
    ground (arith, e, h, lookup-put_self approval_id written before)

-- What `expire` has done.
pub record Expired (a : Approval) (now : ℕ) (db : Db) (a' : Approval) (db' : Db) (row : Approval)
    : Type 0 where
  pub found : lookup a.approval_id db.approvals ≡ some row
  pub status_fits : row.status ≡ a.status
  pub due : row.expires_at ≤ now
  pub returned : a' ≡ record row { status = ApprovalStatus.expired; revision = row.revision + 1 }
  pub approvals_after : db'.approvals ≡ put a.approval_id a' db.approvals

where_fits :
    (row a : Approval) (now : ℕ)
    → (row.status == a.status && row.revision == a.revision && leb row.expires_at now) ≡ true
    → (row.status ≡ a.status) × (row.expires_at ≤ now)
where_fits row a now h = (ground (arith, h), ground (arith, h))

expire-Expired :
    (env : Env) (a a' : Approval) (now token : ℕ) (db db' : Db)
    → expire env a now token db ≡ (ok a', db')
    → (row : Approval) × Expired a now db a' db' row
unfolding expire
expire-Expired env a a' now token db db' h =
    let (_, d1, b1, h1) = bind-returns _ _ db h in
    let (row, found, fits, _, e1) =
      update_approval-returns a.approval_id _ approval_conflict now
        (λ r. record r { status = ApprovalStatus.expired }) db d1 b1 in
    let (_, d2, b2, h2) = bind-returns _ _ d1 h1 in
    let e2 = append_event-returns _ _ d1 d2 b2 in
    let (_, d3, b3, h3) = bind-returns _ _ d2 h2 in
    let e3 = stop_expired-approvals (later 1 env) a now token d2 d3 b3 in
    let (read, _, e4) = required_approval-returns env a.approval_id d3 db' a' h3 in
    let (status_fits, due) = where_fits row a now fits in
    let new = record row { status = ApprovalStatus.expired; revision = row.revision + 1 } in
    let written =
      ap (λ (d : Db). d.approvals) e4
      ∙ e3
      ∙ ap (λ (d : Db). d.approvals) e2
      ∙ ap (λ (d : Db). d.approvals) e1 in
    let returned =
      read_back a.approval_id a' new db.approvals db'.approvals written
        (subst (λ (d : Db). lookup a.approval_id d.approvals ≡ some a') (sym e4) read) in
    (
      row,
      record {
        found = found;
        status_fits = status_fits;
        due = due;
        returned = returned;
        approvals_after =
            written ∙ ap (λ (x : Approval). put a.approval_id x db.approvals) (sym returned);
      },
    )

-- `materialize_expiry` returns an approval that has not expired and writes nothing, or it has expired
-- an active one that was due.
pub materialize_expiry-returns :
    (env : Env) (a a' : Approval) (token : ℕ) (db db' : Db)
    → materialize_expiry env a token db ≡ (ok a', db')
    → ((a' ≡ a) × (db' ≡ db) × (is_active a.status ≡ true → env.clock 0 < a.expires_at))
      ⊎ ((is_active a.status ≡ true) × ((row : Approval) × Expired a (env.clock 0) db a' db' row))
unfolding materialize_expiry
materialize_expiry-returns env a a' token db db' h =
    split (is_active a.status && leb a.expires_at (env.clock 0)) refl h
  where
    split :
        (due : Bool)
        → (is_active a.status && leb a.expires_at (env.clock 0)) ≡ due
        → (if due then expire (later 1 env) a (env.clock 0) token else pure a) db ≡ (ok a', db')
        → ((a' ≡ a) × (db' ≡ db) × (is_active a.status ≡ true → env.clock 0 < a.expires_at))
          ⊎ ((is_active a.status ≡ true)
              × ((row : Approval) × Expired a (env.clock 0) db a' db' row))
    split true due k =
        inr (ground (arith, due), expire-Expired (later 1 env) a a' (env.clock 0) token db db' k)
    split false live k =
        let (returned, unchanged) = pure-returns _ db k in
        inl (returned, unchanged, λ active. ground (arith, live, active))

-- An operation that goes on with an approval that is not expired has got the stored one, in time.
pub not_expired :
    (env : Env) (a a' : Approval) (token : ℕ) (db db' : Db)
    → a'.status ≢ ApprovalStatus.expired
    → materialize_expiry env a token db ≡ (ok a', db')
    → (a' ≡ a) × (db' ≡ db) × (is_active a.status ≡ true → env.clock 0 < a.expires_at)
not_expired env a a' token db db' other h =
    elim (materialize_expiry-returns env a a' token db db' h) [
      | inl kept ↦ kept
      | inr (_, due) ↦ absurd (other (ap (λ (x : Approval). x.status) due.1.returned))
    ]

-- The approvals after one guarded update, with reads before it, and the events and runs behind it.
pub written_back :
    (approval_id : ℕ) (f : Approval → Approval) (db d5 d6 d7 d8 db' : Db) (row row' read : Approval)
    → d5 ≡ db
    → lookup approval_id db.approvals ≡ some row
    → lookup approval_id d5.approvals ≡ some row'
    → d6 ≡ record d5 {
      approvals = put approval_id (record (f row') { revision = row'.revision + 1 }) d5.approvals;
    }
    → d7 ≡ record d6 { audit_events = d7.audit_events }
    → d8.approvals ≡ d7.approvals
    → lookup approval_id d8.approvals ≡ some read
    → db' ≡ d8
    → (read ≡ record (f row) { revision = row.revision + 1 })
      × (db'.approvals ≡ put approval_id read db.approvals)
written_back approval_id f db d5 d6 d7 d8 db' row row' read e5 found found' e6 e7 e8 back e9 =
    let new : Approval = record (f row) { revision = row.revision + 1 } in
    let written : d8.approvals ≡ put approval_id new db.approvals =
      ground (arith, e5, found, found', e6, e7, e8) in
    let same = read_back approval_id read new db.approvals d8.approvals written back in
    (
      same,
      ap (λ (d : Db). d.approvals) e9
          ∙ written
          ∙ ap (λ (x : Approval). put approval_id x db.approvals) (sym same),
    )
