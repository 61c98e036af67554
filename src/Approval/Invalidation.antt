-- ===== src/Approval/Invalidation.antt =====
-- What the invalidation of an approval needs.
use my_ai_agent_fullstack_tr.Base.{
  Bool, Option, ap, arith, equals, false, if◌then◌else◌, inl, inr, list_eq, nat_eq, none, not,
  option_eq, pair_eq, refl, some, subst, sym, true, ℕ, ◌+◌, ◌<◌, ◌==◌, ◌∙◌, ◌≡◌, ◌≢◌, ◌⊎◌,
}
use my_ai_agent_fullstack_tr.Approval.{approval_is_valid, is_active, stable_code}
use my_ai_agent_fullstack_tr.Approval.Claim.{check_invalidation, invalidate, is_prepared}
use my_ai_agent_fullstack_tr.Approval.Expiry.{
  not_expired, required_approval-returns, update_approval-returns, written_back,
}
use my_ai_agent_fullstack_tr.Domain.ErrorCode.{approval_conflict}
use my_ai_agent_fullstack_tr.Domain.Models.{Approval, Text}
use my_ai_agent_fullstack_tr.Domain.Status.{ApprovalStatus, approval_status_eq}
use my_ai_agent_fullstack_tr.State.Access.{append_event-returns, verify_lease-returns}
use my_ai_agent_fullstack_tr.Storage.Exec.{ok, ◌>>=◌}
use my_ai_agent_fullstack_tr.Storage.Inversion.{
  bind-returns, gets-returns, raise_if-ends, raise_if-returns,
}
use my_ai_agent_fullstack_tr.Storage.Rows.{Db, Env, later}
use my_ai_agent_fullstack_tr.Storage.Table.{lookup, put}

-- The approval as its invalidation leaves it.
abbrev pub after_invalidate : Approval → Approval
after_invalidate a = record a {
  status = ApprovalStatus.invalidated;
  claimed_at = none;
  execution_intent_id = none;
  consumed_at = none;
  consumption_code = none;
  revision = a.revision + 1;
}

-- An invalidation that was in order: the approval was active and not yet due, or claimed for a call
-- that has not started.
pub record Invalidated (env : Env) (approval_id : ℕ) (db : Db) (a' : Approval) (db' : Db)
    (a : Approval) : Type 0 where
  pub found : lookup approval_id db.approvals ≡ some a
  pub not_ended :
      ((is_active a.status ≡ true) × (env.clock 1 < a.expires_at))
      ⊎ ((a.status ≡ ApprovalStatus.claimed)
          × (is_prepared (lookup (a.run_id, a.tool_call_id) db.tool_calls) ≡ true))
  pub returned : a' ≡ after_invalidate a
  pub valid : approval_is_valid env a' ≡ true
  pub approvals_after : db'.approvals ≡ put approval_id a' db.approvals

can_end :
    (s : ApprovalStatus) (p : Bool)
    → (if s == ApprovalStatus.claimed then not p else not (is_active s)) ≡ false
    → (is_active s ≡ true) ⊎ ((s ≡ ApprovalStatus.claimed) × (p ≡ true))
can_end s p h = ground (arith, h)

check_invalidation-returns :
    (a : Approval) (db db' : Db)
    → check_invalidation a db ≡ (ok tt, db')
    → ((is_active a.status ≡ true)
        ⊎ ((a.status ≡ ApprovalStatus.claimed)
            × (is_prepared (lookup (a.run_id, a.tool_call_id) db.tool_calls) ≡ true)))
      × (db' ≡ db)
unfolding check_invalidation
check_invalidation-returns a db db' h =
    let (fits, e) = raise_if-ends _ _ db (gets-returns _ _ db h) in (can_end a.status _ fits, e)

not_expired_open :
    (s : ApprovalStatus) (P : Type 0)
    → (is_active s ≡ true) ⊎ ((s ≡ ApprovalStatus.claimed) × P)
    → s ≢ ApprovalStatus.expired
not_expired_open s P (inl active) e = ground (arith, active, e)
not_expired_open s P (inr (claimed, _)) e = ground (arith, claimed, e)

stable_code-db :
    (env : Env) (value : Option Text) (db db' : Db) (code : Text)
    → stable_code env value db ≡ (ok code, db')
    → db' ≡ db
unfolding stable_code ◌>>=◌
stable_code-db env value db db' code h = ground arith

-- An invalidation that returns was in order: the stored approval had the expected revision, and was
-- pending or approved and not yet due, or claimed for a call that had not started. What is stored then
-- is that approval, invalidated and without its claim.
pub invalidate-Invalidated :
    (env : Env) (approval_id revision : ℕ) (reason : Option Text) (token : ℕ) (db db' : Db)
    (a' : Approval)
    → invalidate env approval_id revision reason token db ≡ (ok a', db')
    → (a : Approval) × (a.revision ≡ revision) × Invalidated env approval_id db a' db' a
unfolding invalidate
invalidate-Invalidated env approval_id revision reason token db db' a' h =
    let now = env.clock 0 in
    let (row, d1, b1, h1) = bind-returns _ _ db h in
    let (found, _, e1) = required_approval-returns env approval_id db d1 row b1 in
    let (_, d2, b2, h2) = bind-returns _ _ d1 h1 in
    let (_, _, _, _, e2) = verify_lease-returns env row.run_id token now d1 d2 b2 in
    let (a, d3, b3, h3) = bind-returns _ _ d2 h2 in
    let (revision_fits, h4) = raise_if-returns _ _ _ d3 h3 in
    let (_, d4, b4, h5) = bind-returns _ _ d3 h4 in
    let (can, e4) = check_invalidation-returns a d3 d4 b4 in
    let (same, e3, live) =
      not_expired (later 1 env) row a token d2 d3 (not_expired_open a.status _ can) b3 in
    let (code, d5, b5, h6) = bind-returns _ _ d4 h5 in
    let e5 = stable_code-db env reason d4 d5 code b5 in
    let (_, d6, b6, h7) = bind-returns _ _ d5 h6 in
    let (row', found', _, _, e6) =
      update_approval-returns approval_id _ approval_conflict now after_invalidate d5 d6 b6 in
    let (_, d7, b7, h8) = bind-returns _ _ d6 h7 in
    let e7 = append_event-returns _ _ d6 d7 b7 in
    let (read, valid, e9) = required_approval-returns env approval_id d7 db' a' h8 in
    let start = e3 ∙ e2 ∙ e1 in
    let (returned, after) =
      written_back approval_id after_invalidate db d5 d6 d7 d7 db' row row' a' (e5 ∙ e4 ∙ start)
        found found' e6 e7 refl read e9 in
    let can0 =
      subst
        (λ (x : Approval).
          (is_active x.status ≡ true)
          ⊎ ((x.status ≡ ApprovalStatus.claimed)
              × (is_prepared (lookup (x.run_id, x.tool_call_id) d3.tool_calls) ≡ true)))
        same can in
    let can1 =
      subst
        (λ (d : Db).
          (is_active row.status ≡ true)
          ⊎ ((row.status ≡ ApprovalStatus.claimed)
              × (is_prepared (lookup (row.run_id, row.tool_call_id) d.tool_calls) ≡ true)))
        start can0 in
    (
      row,
      sym (ap (λ (x : Approval). x.revision) same) ∙ equals _ _ revision_fits,
      record {
        found = found;
        not_ended = elim can1 [
          | inl active ↦ inl (active, live active)
          | inr claimed ↦ inr claimed
        ];
        returned = returned;
        valid = valid;
        approvals_after = after;
      },
    )
