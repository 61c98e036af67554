-- ===== src/State/Lease/Fencing.antt =====
-- The lease keeps one owner: it cannot be taken while it is live, and taking it ends the old token.
use my_ai_agent_fullstack_tr.Base.{
  Option, ap, arith, false, list_eq, nat_eq, option_eq, pair_eq, some, subst, sym, ℕ, ◌+◌, ◌<◌, ◌∙◌,
  ◌≡◌, ◌≢◌,
}
use my_ai_agent_fullstack_tr.Domain.ErrorCode.{state_lease_invalid}
use my_ai_agent_fullstack_tr.Domain.Models.{Text}
use my_ai_agent_fullstack_tr.State.Access.{
  append_event-returns, get_run-returns, verify_lease, verify_lease_passes, verify_lease_refuses,
}
use my_ai_agent_fullstack_tr.State.Lease.{
  LeasePolicy, RunLease, acquire_in_run, acquire_lease, is_held, seconds,
}
use my_ai_agent_fullstack_tr.Storage.Atomic.{inside, transaction_rolls_back}
use my_ai_agent_fullstack_tr.Storage.Exec.{err, ok, raised, transaction}
use my_ai_agent_fullstack_tr.Storage.Inversion.{
  bind-returns, gets-returns, modify-returns, pure-returns, raise_if-returns,
}
use my_ai_agent_fullstack_tr.Storage.Rows.{Db, Env, LeaseRow}
use my_ai_agent_fullstack_tr.Storage.Table.{Table, lookup, lookup-put_self, put}

lease_row : Env → ℕ → Text → LeasePolicy → LeaseRow
lease_row env run_id owner_id policy = record {
  owner_id = env.strip owner_id;
  token_digest = env.token_digest env.new_token;
  acquired_at = env.clock 0;
  heartbeat_at = env.clock 0;
  expires_at = env.clock 0 + seconds policy.ttl_seconds;
}

-- What `_acquire_lease` has checked and written when it returns.
acquire_in_run-returns :
    (env : Env) (run_id : ℕ) (owner_id : Text) (policy : LeasePolicy) (db db' : Db)
    (lease : RunLease)
    → acquire_in_run env run_id owner_id policy db ≡ (ok lease, db')
    → (is_held (lookup run_id db.run_leases) (env.clock 0) ≡ false)
      × (lease.token ≡ env.new_token)
      × (lease.expires_at ≡ env.clock 0 + seconds policy.ttl_seconds)
      × (db'.run_leases ≡ put run_id (lease_row env run_id owner_id policy) db.run_leases)
unfolding acquire_in_run lease_row
acquire_in_run-returns env run_id owner_id policy db db' lease h =
    let (_, h1) = raise_if-returns _ _ _ db h in
    let h2 = gets-returns _ _ db h1 in
    let (free, h3) = raise_if-returns _ _ _ db h2 in
    let h4 = modify-returns _ _ db h3 in
    let (_, d1, b1, h5) = bind-returns _ _ _ h4 in
    let (same, e2) = pure-returns _ d1 h5 in
    let e1 = append_event-returns _ _ _ d1 b1 in
    (
      free,
      ap (λ (l : RunLease). l.token) same,
      ap (λ (l : RunLease). l.expires_at) same,
      ap (λ (d : Db). d.run_leases) e2 ∙ ap (λ (d : Db). d.run_leases) e1,
    )

held_not_free :
    {o o' : Option LeaseRow} {held : LeaseRow} {now : ℕ}
    → o' ≡ o
    → o ≡ some held
    → now < held.expires_at
    → is_held o' now ≢ false
unfolding is_held
held_not_free {o} {o'} {held} {now} e found live free = ground arith

-- While a run's lease has not expired nobody can take it: the transaction changes nothing.
pub acquire_lease_held :
    (env : Env) (run_id : ℕ) (owner_id : Text) (policy : LeasePolicy) (db : Db) {held : LeaseRow}
    → lookup run_id db.run_leases ≡ some held
    → env.clock 0 < held.expires_at
    → (transaction env (λ e. acquire_lease e run_id owner_id policy) db).1 ≡ db
unfolding acquire_lease
acquire_lease_held env run_id owner_id policy db {held} found live =
    transaction_rolls_back env (λ e. acquire_lease e run_id owner_id policy) db
      λ lease db' h.
        let (row, d1, b1, h1) = bind-returns _ _ db h in
        let (_, _, e1) = get_run-returns run_id db d1 row b1 in
        let (free, _, _, _) =
          acquire_in_run-returns (inside env) run_id owner_id policy d1 db' lease h1 in
        held_not_free (ap (λ (d : Db). lookup run_id d.run_leases) e1) found live free

-- A lease that was acquired is the run's only one: its token passes the check until it expires, and
-- a token with another digest, such as the last owner's, is refused at any time.
pub acquire_lease_fences :
    (env : Env) (run_id : ℕ) (owner_id : Text) (policy : LeasePolicy) (db db' : Db)
    (lease : RunLease)
    → acquire_lease env run_id owner_id policy db ≡ (ok lease, db')
    → ((now : ℕ)
        → now < lease.expires_at
        → verify_lease env run_id lease.token now db' ≡ (ok tt, db'))
      × ((token now : ℕ)
          → env.token_digest token ≢ env.token_digest lease.token
          → verify_lease env run_id token now db' ≡ (err (raised state_lease_invalid), db'))
unfolding acquire_lease
acquire_lease_fences env run_id owner_id policy db db' lease h =
    let (row, d1, b1, h1) = bind-returns _ _ db h in
    let (_, token_is, expires_is, leases_are) =
      acquire_in_run-returns env run_id owner_id policy d1 db' lease h1 in
    let mine = lease_row env run_id owner_id policy in
    let stored =
      subst (λ (t : Table ℕ LeaseRow). lookup run_id t ≡ some mine) (sym leases_are)
        (lookup-put_self run_id mine d1.run_leases) in
    (
      λ now live.
          verify_lease_passes env run_id lease.token now db' mine stored
            (unfold lease_row in ap env.token_digest (sym token_is))
            (unfold lease_row in omega (arith, live, expires_is)),
      λ token now other.
          verify_lease_refuses env run_id token now db' mine stored
            (λ e. other (unfold lease_row in sym e ∙ ap env.token_digest (sym token_is))),
    )
