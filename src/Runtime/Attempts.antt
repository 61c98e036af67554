-- ===== src/Runtime/Attempts.antt =====
-- The attempts of `_execute_with_recovery` of tool_governance_demo.py.
use my_ai_agent_fullstack_tr.Base.{
  Bool, Bool-cases, List, [], arith, false, if◌then◌else◌, inl, inr, length, refl, suc, true, zero,
  ℕ, ◌+◌, ◌<◌, ◌∷◌, ◌≡◌, ◌≤◌,
}
use my_ai_agent_fullstack_tr.Runtime.{ArgsModel, ExecutionContext, Outcome, Shared, ToolDefinition}
use my_ai_agent_fullstack_tr.Runtime.Invoke.{
  Ending, Recovery, attempt_loop, backoff_ms, conclude, ends_with, execute_with_recovery, expires,
  is_repeatable, once_more,
}

backoff_ms_bound : (n : ℕ) → backoff_ms n ≤ 200
unfolding backoff_ms
backoff_ms_bound zero = omega arith
backoff_ms_bound (suc zero) = omega arith
backoff_ms_bound (suc (suc n)) = omega arith

-- No pause is longer than 0.2 seconds.
abbrev pub AllShort : List ℕ → Type 0
AllShort [] = Unit
AllShort (p ∷ pauses) = (p ≤ 200) × AllShort pauses

-- A loop with this many retries left.
record Bounded (left : ℕ) (r : Recovery) : Type 0 where
  some_attempt : 1 ≤ r.attempts
  few_attempts : r.attempts ≤ left + 1
  one_between : length r.pauses_ms + 1 ≡ r.attempts
  short_pauses : AllShort r.pauses_ms

ends_with-Bounded : (left : ℕ) (e : Ending) (s : Shared) → Bounded left (ends_with e s)
ends_with-Bounded left e s = record {
  some_attempt = omega arith;
  few_attempts = omega arith;
  one_between = omega arith;
  short_pauses = tt;
}

conclude-Bounded :
    (left : ℕ) (o : Outcome) (s : Shared) (rest : Recovery)
    → Bounded left rest
    → Bounded left (conclude o s rest)
conclude-Bounded left Outcome.returns s rest b = ends_with-Bounded left Ending.returned s
conclude-Bounded left (Outcome.denied c) s rest b = ends_with-Bounded left (Ending.refused c) s
conclude-Bounded left Outcome.transient s rest b = b
conclude-Bounded left Outcome.raises s rest b = ends_with-Bounded left Ending.raised s

choose-Bounded :
    (left : ℕ) (b : Bool) (r r' : Recovery)
    → Bounded left r
    → Bounded left r'
    → Bounded left (if b then r else r')
choose-Bounded left true r r' h h' = h
choose-Bounded left false r r' h h' = h'

once_more-Bounded :
    (left n : ℕ) (r : Recovery) → Bounded left r → Bounded (suc left) (once_more (backoff_ms n) r)
once_more-Bounded left n r b = record {
  some_attempt = omega (arith, b.some_attempt);
  few_attempts = omega (arith, b.few_attempts);
  one_between = omega (arith, b.one_between);
  short_pauses = (backoff_ms_bound n, b.short_pauses);
}

attempt_loop-Bounded :
    (tool : ToolDefinition) (args : ArgsModel) (context : ExecutionContext) (attempt left : ℕ)
    (s : Shared)
    → Bounded left (attempt_loop tool args context attempt left s)
unfolding attempt_loop
attempt_loop-Bounded tool args context attempt zero s =
    choose-Bounded 0 _ _ _ (ends_with-Bounded 0 Ending.timed_out s) (
      conclude-Bounded 0 (tool.handler args context s).outcome _ _
        (ends_with-Bounded 0 Ending.exhausted _))
attempt_loop-Bounded tool args context attempt (suc left) s =
    choose-Bounded (suc left) _ _ _ (ends_with-Bounded (suc left) Ending.timed_out s) (
      conclude-Bounded (suc left) (tool.handler args context s).outcome _ _ (
        once_more-Bounded left attempt _
          (attempt_loop-Bounded tool args context (attempt + 1) left _)))

no_pause : (pauses : List ℕ) → length pauses ≡ 0 → pauses ≡ []
no_pause [] h = refl
no_pause (p ∷ pauses) h = absurd (omega (arith, h))

-- The handler is called at least once and at most `max_retries + 1` times, with one pause of at most
-- 0.2 seconds between two calls and no other; the handler of a tool that neither only reads nor is
-- idempotent is called exactly once, and nothing pauses.
pub execute_with_recovery_bounds :
    (tool : ToolDefinition) (args : ArgsModel) (context : ExecutionContext) (s : Shared)
    → let r = execute_with_recovery tool args context s in
      (1 ≤ r.attempts)
      × (r.attempts ≤ tool.policy.max_retries + 1)
      × (length r.pauses_ms + 1 ≡ r.attempts)
      × AllShort r.pauses_ms
      × (is_repeatable tool ≡ false → (r.attempts ≡ 1) × (r.pauses_ms ≡ []))
unfolding execute_with_recovery
execute_with_recovery_bounds tool args context s = elim (Bool-cases (is_repeatable tool)) [
  | inl e ↦
      let b = attempt_loop-Bounded tool args context 0 tool.policy.max_retries s in
      rw (e) (b.some_attempt, b.few_attempts, b.one_between, b.short_pauses, λ k. cc)
  | inr e ↦
      let b = attempt_loop-Bounded tool args context 0 0 s in
      rw (e) (
        b.some_attempt,
        omega (arith, b.few_attempts),
        b.one_between,
        b.short_pauses,
        λ k.
            let once : _ ≡ 1 = omega (arith, b.some_attempt, b.few_attempts) in
            (once, no_pause _ (omega (arith, b.one_between, once))),
      )
]

-- The handler fails transiently this many times, and returns then.
pub data Recovers (tool : ToolDefinition) (args : ArgsModel) (context : ExecutionContext)
    : ℕ → Shared → Shared → Type 0 where
  now :
      {s : Shared}
      → expires tool (tool.handler args context s) ≡ false
      → (tool.handler args context s).outcome ≡ Outcome.returns
      → Recovers tool args context 0 s (tool.handler args context s).effects
  again :
      {n : ℕ} {s s' : Shared}
      → expires tool (tool.handler args context s) ≡ false
      → (tool.handler args context s).outcome ≡ Outcome.transient
      → Recovers tool args context n (tool.handler args context s).effects s'
      → Recovers tool args context (suc n) s s'

attempt_loop-Recovers :
    (tool : ToolDefinition) (args : ArgsModel) (context : ExecutionContext) (attempt n left : ℕ)
    (s s' : Shared)
    → Recovers tool args context n s s'
    → n ≤ left
    → let r = attempt_loop tool args context attempt left s in
      (r.ending ≡ Ending.returned) × (r.attempts ≡ n + 1) × (r.after ≡ s')
unfolding attempt_loop
attempt_loop-Recovers tool args context attempt zero zero s s' (now e o) h =
    rw (e, o) (refl, refl, refl)
attempt_loop-Recovers tool args context attempt zero (suc left) s s' (now e o) h =
    rw (e, o) (refl, refl, refl)
attempt_loop-Recovers tool args context attempt (suc n) zero s s' (again e o r) h =
    absurd (omega (arith, h))
attempt_loop-Recovers tool args context attempt (suc n) (suc left) s s' (again e o r) h =
    let (a, b, c) =
      attempt_loop-Recovers tool args context (attempt + 1) n left _ s' r (omega (arith, h)) in
    rw (e, o) (a, omega (arith, b), c)

attempt_loop-exhausted :
    (tool : ToolDefinition) (args : ArgsModel) (context : ExecutionContext) (attempt n left : ℕ)
    (s s' : Shared)
    → Recovers tool args context n s s'
    → left < n
    → let r = attempt_loop tool args context attempt left s in
      (r.ending ≡ Ending.exhausted) × (r.attempts ≡ left + 1)
unfolding attempt_loop
attempt_loop-exhausted tool args context attempt zero left s s' r h = absurd (omega (arith, h))
attempt_loop-exhausted tool args context attempt (suc n) zero s s' (again e o r) h =
    rw (e, o) (refl, refl)
attempt_loop-exhausted tool args context attempt (suc n) (suc left) s s' (again e o r) h =
    let (a, b) =
      attempt_loop-exhausted tool args context (attempt + 1) n left _ s' r (omega (arith, h)) in
    rw (e, o) (a, omega (arith, b))

-- The number of retries that a tool has.
abbrev pub retries : ToolDefinition → ℕ
retries tool = if is_repeatable tool then tool.policy.max_retries else 0

-- A handler that fails transiently some times before it returns is called until it returns, if these
-- times are no more than the retries of its tool; else the last attempt's error is raised.
pub execute_with_recovery-Recovers :
    (tool : ToolDefinition) (args : ArgsModel) (context : ExecutionContext) (n : ℕ) (s s' : Shared)
    → Recovers tool args context n s s'
    → let r = execute_with_recovery tool args context s in
      (n ≤ retries tool → (r.ending ≡ Ending.returned) × (r.attempts ≡ n + 1) × (r.after ≡ s'))
      × (retries tool < n → (r.ending ≡ Ending.exhausted) × (r.attempts ≡ retries tool + 1))
unfolding execute_with_recovery
execute_with_recovery-Recovers tool args context n s s' r = (
  attempt_loop-Recovers tool args context 0 n (retries tool) s s' r,
  attempt_loop-exhausted tool args context 0 n (retries tool) s s' r,
)
