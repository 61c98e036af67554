-- ===== src/State/Lease.antt =====
-- The leases of a run (state_store.py): one owner at a time, by a token that expires.
pub mod Fencing
use my_ai_agent_fullstack_tr.Base.{
  Bool, Option, [], false, if◌then◌else◌, is_some, leb, length, list_eq, ltb, nat_eq, none, not,
  option_eq, pair_eq, some, ℕ, ◌&&◌, ◌*◌, ◌+◌, ◌/=◌, ◌==◌, ◌||◌, ◌∷◌,
}
use my_ai_agent_fullstack_tr.Domain.ErrorCode.{
  state_lease_expired, state_lease_held, state_lease_invalid,
}
use my_ai_agent_fullstack_tr.Domain.Models.{Text}
use my_ai_agent_fullstack_tr.State.Access.{append_event, event, get_run}
use my_ai_agent_fullstack_tr.Storage.Exec.{
  Exec, constrained, gets, modify, or_raise, pure, raise_if, ◌>>=◌, ◌>>◌,
}
use my_ai_agent_fullstack_tr.Storage.Rows.{AuditEventType, AuditStatus, Env, LeaseRow, later}
use my_ai_agent_fullstack_tr.Storage.Table.{Table, lookup, put}

-- `class LeasePolicy` of domain.py, as far as the store reads it: its time to live.
pub record LeasePolicy : Type 0 where
  pub ttl_seconds : ℕ

-- `LeasePolicy.__post_init__`: the bounds of the time to live.
abbrev policy_is_valid : LeasePolicy → Bool
policy_is_valid p = leb 10 p.ttl_seconds && leb p.ttl_seconds 300

-- `class RunLease`
pub record RunLease : Type 0 where
  pub run_id : ℕ
  pub owner_id : Text
  pub token : ℕ
  pub acquired_at : ℕ
  pub heartbeat_at : ℕ
  pub expires_at : ℕ

-- A number of seconds as microseconds.
abbrev pub seconds : ℕ → ℕ
seconds n = n * 1000000

is_held : Option LeaseRow → ℕ → Bool
is_held none now = false
is_held (some l) now = ltb now l.expires_at

-- `_acquire_lease`, with the token of `secrets.token_hex`.
unfoldable pub acquire_in_run : Env → ℕ → Text → LeasePolicy → Exec RunLease
unfolding is_held
acquire_in_run env run_id owner_id policy = do
  let owner = env.strip owner_id
  let now = env.clock 0
  raise_if (owner == [] || ltb 256 (length owner)) state_lease_invalid
  row ← gets (λ db. lookup run_id db.run_leases)
  raise_if (is_held row now) state_lease_held
  let expires = now + seconds policy.ttl_seconds
  let lease : LeaseRow = record {
    owner_id = owner;
    token_digest = env.token_digest env.new_token;
    acquired_at = now;
    heartbeat_at = now;
    expires_at = expires;
  }
  modify (λ db. record db { run_leases = put run_id lease db.run_leases })
  append_event (later 1 env) (
      event run_id
        (if is_some row
          then AuditEventType.run_lease_takeover
          else AuditEventType.run_lease_acquired)
        AuditStatus.succeeded)
  pure (record {
    run_id = run_id;
    owner_id = owner;
    token = env.new_token;
    acquired_at = now;
    heartbeat_at = now;
    expires_at = expires;
  })

-- `StateStore.acquire_lease`
unfoldable pub acquire_lease : Env → ℕ → Text → LeasePolicy → Exec RunLease
unfolding acquire_in_run get_run
acquire_lease env run_id owner_id policy = do
  get_run run_id
  acquire_in_run env run_id owner_id policy

-- `StateStore.renew_lease`; the table asks that a heartbeat does not precede the acquisition, and the
-- lease ends after it, since it lasts ten seconds at least.
unfoldable renew_lease : Env → RunLease → ℕ → Exec RunLease
renew_lease env lease ttl_seconds = do
  raise_if (not (leb 10 ttl_seconds && leb ttl_seconds 300)) state_lease_invalid
  let now = env.clock 0
  row ← or_raise (← gets (λ db. lookup lease.run_id db.run_leases)) state_lease_invalid
  raise_if (row.token_digest /= env.token_digest lease.token) state_lease_invalid
  raise_if (leb row.expires_at now) state_lease_expired
  let expires = now + seconds ttl_seconds
  constrained (leb row.acquired_at now)
  modify (λ db. record db {
    run_leases =
        put lease.run_id (record row { heartbeat_at = now; expires_at = expires }) db.run_leases;
  })
  pure (record lease { heartbeat_at = now; expires_at = expires })

-- `DELETE FROM run_leases WHERE run_id = ?`
without_lease : ℕ → Table ℕ LeaseRow → Table ℕ LeaseRow
without_lease run_id [] = []
without_lease run_id ((k, l) ∷ t) =
    let rest = without_lease run_id t in if k == run_id then rest else (k, l) ∷ rest

-- `StateStore.release_lease`
unfoldable release_lease : Env → RunLease → Exec (Unit {0})
unfolding without_lease
release_lease env lease = do
  row ← or_raise (← gets (λ db. lookup lease.run_id db.run_leases)) state_lease_invalid
  raise_if (row.token_digest /= env.token_digest lease.token) state_lease_invalid
  modify (λ db. record db { run_leases = without_lease lease.run_id db.run_leases })
  append_event (later 1 env)
      (event lease.run_id AuditEventType.run_lease_released AuditStatus.succeeded)
