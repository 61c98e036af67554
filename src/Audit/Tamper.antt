-- ===== src/Audit/Tamper.antt =====
-- What a valid chain proves: its last hash fixes every event.
use mathlib.Core.List.{head?, reverse_aux, reverse, reverse-reverse}
use my_ai_agent_fullstack_tr.Base.{
  List, [], ap, arith, get_last?, inl, inr, none, refl, sym, ℕ, ℕ_discrete, ◌+◌, ◌∙◌, ◌∷◌, ◌≡◌, ◌≢◌,
  ◌⊎◌,
}
use my_ai_agent_fullstack_tr.Audit.{
  check_rows, genesis_hash, hash_after, head, run_events, verify_chain,
}
use my_ai_agent_fullstack_tr.Domain.ErrorCode.{ErrorCode}
use my_ai_agent_fullstack_tr.Domain.Models.{StableCode}
use my_ai_agent_fullstack_tr.Domain.Status.{StopReason-discrete}
use my_ai_agent_fullstack_tr.Storage.Rows.{AuditEventRecord, AuditPayload, Db, Env, RuleId}

-- A chain from its last row back to the genesis hash.
abbrev BackChain : (AuditPayload → ℕ) → List AuditEventRecord → Type 0
BackChain digest [] = Unit
BackChain digest (r ∷ rows) =
    (r.payload.prev_hash ≡ hash_after (head? rows))
    × (r.event_hash ≡ digest r.payload)
    × BackChain digest rows

reverse_aux-BackChain :
    (digest : AuditPayload → ℕ) (n : ℕ) (rows acc : List AuditEventRecord)
    → check_rows digest n (hash_after (head? acc)) rows ≡ none
    → BackChain digest acc
    → BackChain digest (reverse_aux rows acc)
unfolding check_rows hash_after
reverse_aux-BackChain digest n [] acc c b = b
reverse_aux-BackChain digest n (r ∷ rows) acc c b =
    reverse_aux-BackChain digest (n + 1) rows (r ∷ acc) (ground arith)
      (ground arith, ground arith, b)

ErrorCode-discrete : Discrete ErrorCode
ErrorCode-discrete = hlevel

StableCode-discrete : Discrete StableCode
StableCode-discrete = hlevel (ErrorCode-discrete, StopReason-discrete, ℕ_discrete)

RuleId-discrete : Discrete RuleId
RuleId-discrete = hlevel ℕ_discrete

AuditPayload-discrete : Discrete AuditPayload
AuditPayload-discrete = hlevel (StableCode-discrete, RuleId-discrete, ℕ_discrete)

-- What a digest must not do: give two payloads the same value, or one the genesis hash.
pub data Broken (digest : AuditPayload → ℕ) : Type 0 where
  collision : (p q : AuditPayload) → p ≢ q → digest p ≡ digest q → Broken digest
  preimage : (p : AuditPayload) → digest p ≡ genesis_hash → Broken digest

module _ (digest : AuditPayload → ℕ) where
  BackChain-unique :
      (xs ys : List AuditEventRecord)
      → BackChain digest xs
      → BackChain digest ys
      → hash_after (head? xs) ≡ hash_after (head? ys)
      → (xs ≡ ys) ⊎ Broken digest
  unfolding hash_after
  BackChain-unique [] [] b c e = inl refl
  BackChain-unique [] (y ∷ ys) b c e = inr (preimage y.payload (cc))
  BackChain-unique (x ∷ xs) [] b c e = inr (preimage x.payload (cc))
  BackChain-unique (x ∷ xs) (y ∷ ys) b c e = elim (AuditPayload-discrete x.payload y.payload) [
    | no other ↦ inr (collision x.payload y.payload other (cc))
    | yes same ↦
        elim (BackChain-unique xs ys b.2 c.2
          (sym b.0 ∙ ap (λ (p : AuditPayload). p.prev_hash) same ∙ c.0)) [
            | inl rest ↦ inl (ground (arith, same, rest, e))
            | inr broken ↦ inr broken
          ]
  ]

head?-reverse_aux :
    (x : AuditEventRecord) (rows acc : List AuditEventRecord)
    → head? (reverse_aux rows (x ∷ acc)) ≡ get_last? (x ∷ rows)
head?-reverse_aux x [] acc = refl
head?-reverse_aux x (y ∷ rows) acc = head?-reverse_aux y rows (x ∷ acc)

head?-reverse : (rows : List AuditEventRecord) → head? (reverse rows) ≡ get_last? rows
head?-reverse [] = refl
head?-reverse (x ∷ rows) = head?-reverse_aux x rows []

-- Tampering shows: two databases in which the run's chain is valid and ends in the same hash hold the
-- same events of that run, in every field but the two summaries, or else a collision of SHA-256 is at
-- hand, or a payload whose digest is the genesis hash.
pub verify_chain_unique :
    (env : Env) (run_id : ℕ) (db db' : Db)
    → (verify_chain env run_id db).code ≡ none
    → (verify_chain env run_id db').code ≡ none
    → hash_after (head run_id db.audit_events) ≡ hash_after (head run_id db'.audit_events)
    → (run_events run_id db.audit_events ≡ run_events run_id db'.audit_events)
      ⊎ Broken env.event_digest
unfolding verify_chain head
verify_chain_unique env run_id db db' c d e =
    let xs = run_events run_id db.audit_events in
    let ys = run_events run_id db'.audit_events in
    let digest = env.event_digest in
    elim (BackChain-unique digest (reverse xs) (reverse ys)
      (unfold hash_after in reverse_aux-BackChain digest 1 xs [] c tt)
      (unfold hash_after in reverse_aux-BackChain digest 1 ys [] d tt)
      (rw (head?-reverse xs, head?-reverse ys) e)) [
        | inl same ↦ inl (sym (reverse-reverse xs) ∙ ap reverse same ∙ reverse-reverse ys)
        | inr broken ↦ inr broken
      ]
