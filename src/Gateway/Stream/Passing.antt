-- ===== src/Gateway/Stream/Passing.antt =====
-- The chunks of a stream in gateway.py, passed on to the client.
use my_ai_agent_fullstack_tr.Base.{
  Bool, Bool-cases, List, [], ap, append-nil, append_assoc, arith, false, inl, inr, list_eq, nat_eq,
  option_eq, pair_eq, refl, sym, true, ℕ, ◌++◌, ◌+◌, ◌||◌, ◌∙◌, ◌∷◌, ◌≡◌,
}
use my_ai_agent_fullstack_tr.Domain.Models.{Text}
use my_ai_agent_fullstack_tr.Gateway.Chunks.{
  Output, Passage, StreamServices, StreamState, StreamStatus, any_raises, chunk_raises, pass_chunk,
  pass_chunks, raise_chunk,
}

-- The chunks that are passed on.
unfoldable pub sent : List Text → List Output
sent [] = []
sent ([] ∷ chunks) = sent chunks
sent ((c ∷ chunk) ∷ chunks) = Output.bytes (c ∷ chunk) ∷ sent chunks

abbrev has_output : List Output → Bool
has_output [] = false
has_output (o ∷ l) = true

-- What passing chunks on does.
pub record Passed (chunks : List Text) (s s' : StreamState) : Type 0 where
  pub sends : s'.output ≡ s.output ++ sent chunks
  pub emits : s'.emitted ≡ (s.emitted || has_output (sent chunks))
  pub same_budget : s'.retry_budget ≡ s.retry_budget

nothing-Passed :
    (s : StreamState) (status : StreamStatus) → Passed [] s (record s { status = status })
unfolding sent
nothing-Passed s status = record {
  sends = sym (append-nil s.output);
  emits = ground (arith);
  same_budget = refl;
}

pass_chunk-Passed :
    (services : StreamServices) (attempt i : ℕ) (chunk : Text) (s : StreamState)
    → Passed (chunk ∷ []) s (pass_chunk services attempt i chunk s)
unfolding pass_chunk sent
pass_chunk-Passed services attempt i [] s = record {
  sends = sym (append-nil s.output);
  emits = ground (arith);
  same_budget = refl;
}
pass_chunk-Passed services attempt i (c ∷ chunk) s = record {
  sends = refl;
  emits = ground (arith);
  same_budget = refl;
}

sent-∷ :
    (chunk : Text) (chunks : List Text) → sent (chunk ∷ chunks) ≡ sent (chunk ∷ []) ++ sent chunks
unfolding sent
sent-∷ [] chunks = refl
sent-∷ (c ∷ chunk) chunks = refl

pub no_output : (l : List Output) → has_output l ≡ false → l ≡ []
no_output [] h = refl
no_output (o ∷ l) h = cc

has_output-++ : (a b : List Output) → has_output (a ++ b) ≡ (has_output a || has_output b)
has_output-++ [] b = refl
has_output-++ (o ∷ a) b = refl

Passed-trans :
    (chunk : Text) (chunks : List Text) (s s' s'' : StreamState)
    → Passed (chunk ∷ []) s s'
    → Passed chunks s' s''
    → Passed (chunk ∷ chunks) s s''
Passed-trans chunk chunks s s' s'' p q =
    let e = sent-∷ chunk chunks in
    record {
      sends =
          q.sends
          ∙ ap (λ o. o ++ sent chunks) p.sends
          ∙ append_assoc s.output (sent (chunk ∷ [])) (sent chunks)
          ∙ ap (λ o. s.output ++ o) (sym e);
      emits =
          let h = ap has_output e ∙ has_output-++ (sent (chunk ∷ [])) (sent chunks) in
          ground (arith, p.emits, q.emits, h);
      same_budget = q.same_budget ∙ p.same_budget;
    }

raising_line :
    (raises : Text → Bool) (lines : List Text)
    → any_raises raises lines ≡ true
    → (line : Text) × (raises line ≡ true)
unfolding any_raises
raising_line raises [] h = cc
raising_line raises (line ∷ lines) h = elim (Bool-cases (raises line)) [
  | inl e ↦ (line, e)
  | inr e ↦ raising_line raises lines (ground (arith, h, e))
]

raising_chunk :
    (services : StreamServices) (chunk : Text) (s : StreamState)
    → chunk_raises services chunk s ≡ true
    → (line : Text) × (services.parse_raises line ≡ true)
unfolding chunk_raises
raising_chunk services [] s h = cc
raising_chunk services (c ∷ chunk) s h = raising_line services.parse_raises _ h

-- Of some chunks, this part has been passed on when the parser raised.
pub record Interrupted (services : StreamServices) (chunks : List Text) (s s' : StreamState)
    : Type 0 where
  pub part : List Text
  pub rest : List Text
  pub parts : chunks ≡ part ++ rest
  pub line : Text
  pub raises : services.parse_raises line ≡ true
  pub sends : s'.output ≡ s.output ++ sent part
  pub same_budget : s'.retry_budget ≡ s.retry_budget
  pub status : s'.status ≡ StreamStatus.escaped

first_raises :
    (services : StreamServices) (attempt i : ℕ) (chunk : Text) (chunks : List Text)
    (s : StreamState)
    → chunk_raises services chunk s ≡ true
    → Interrupted services (chunk ∷ chunks) s (raise_chunk services attempt i chunk s)
unfolding raise_chunk sent
first_raises services attempt i chunk chunks s h =
    let (line, raises) = raising_chunk services chunk s h in
    record {
      part = [];
      rest = chunk ∷ chunks;
      parts = refl;
      line = line;
      raises = raises;
      sends = sym (append-nil s.output);
      same_budget = refl;
      status = refl;
    }

later_raises :
    (services : StreamServices) (chunk : Text) (chunks : List Text) (s s' s'' : StreamState)
    → Passed (chunk ∷ []) s s'
    → Interrupted services chunks s' s''
    → Interrupted services (chunk ∷ chunks) s s''
later_raises services chunk chunks s s' s'' p q = record {
  part = chunk ∷ q.part;
  rest = q.rest;
  parts = ap (λ l. chunk ∷ l) q.parts;
  line = q.line;
  raises = q.raises;
  sends =
      q.sends
      ∙ ap (λ o. o ++ sent q.part) p.sends
      ∙ append_assoc s.output (sent (chunk ∷ [])) (sent q.part)
      ∙ ap (λ o. s.output ++ o) (sym (sent-∷ chunk q.part));
  same_budget = q.same_budget ∙ p.same_budget;
  status = q.status;
}

pub pass_chunks-Passed :
    (services : StreamServices) (attempt i : ℕ) (chunks : List Text) (s : StreamState)
    → let (there, s') = pass_chunks services attempt i chunks s in
      (there ≡ Passage.passed → Passed chunks s s')
      × (there ≡ Passage.raised → Interrupted services chunks s s')
      × (there ≡ Passage.gone
          → (part : List Text) × (rest : List Text) × (chunks ≡ part ++ rest)
            × Passed part s s'
            × (s'.status ≡ StreamStatus.cancelled))
unfolding pass_chunks
pass_chunks-Passed services attempt i [] s = (λ h. nothing-Passed s s.status, λ h. cc, λ h. cc)
pass_chunks-Passed services attempt i (chunk ∷ chunks) s =
    let s1 = pass_chunk services attempt i chunk s in
    let first = pass_chunk-Passed services attempt i chunk s in
    let (all, broken, some_left) = pass_chunks-Passed services attempt (i + 1) chunks s1 in
    elim (Bool-cases (services.is_disconnected attempt i)) [
      | inl e ↦ rw (e) (
        λ h. cc,
        λ h. cc,
        λ h. ([], chunk ∷ chunks, refl, nothing-Passed s StreamStatus.cancelled, refl),
      )
      | inr e ↦ elim (Bool-cases (chunk_raises services chunk s)) [
        | inl r ↦
            rw (e, r) (λ h. cc, λ h. first_raises services attempt i chunk chunks s r, λ h. cc)
        | inr r ↦
            rw (e, r)
              (
                λ h. Passed-trans chunk chunks s s1 _ first (all h),
                λ h. later_raises services chunk chunks s s1 _ first (broken h),
                λ h.
                    let (part, rest, parts, p, status) = some_left h in
                    (
                      chunk ∷ part,
                      rest,
                      ap (λ l. chunk ∷ l) parts,
                      Passed-trans chunk part s s1 _ first p,
                      status,
                    ),
              )
      ]
    ]
