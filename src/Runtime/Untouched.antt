-- ===== src/Runtime/Untouched.antt =====
-- What a handler of tool_governance_demo.py leaves alone, `_execute_with_recovery` does.
use my_ai_agent_fullstack_tr.Base.{
  Bool, false, if◌then◌else◌, refl, suc, true, zero, ℕ, ◌+◌, ◌∙◌, ◌≡◌,
}
use my_ai_agent_fullstack_tr.Runtime.{ArgsModel, ExecutionContext, Outcome, Shared, ToolDefinition}
use my_ai_agent_fullstack_tr.Runtime.Invoke.{
  Ending, Recovery, attempt_loop, backoff_ms, conclude, ends_with, execute_with_recovery,
  is_repeatable, once_more,
}

-- The handler keeps this part of the state.
pub record Untouching {A : Type 0} (part : Shared → A) (tool : ToolDefinition) : Type 0 where
  pub keeps :
      (args : ArgsModel) (context : ExecutionContext) (s : Shared)
      → part (tool.handler args context s).effects ≡ part s

module _ {A : Type 0} (part : Shared → A) where
  conclude-part :
      (o : Outcome) (s : Shared) (rest : Recovery)
      → part rest.after ≡ part s
      → part (conclude o s rest).after ≡ part s
  conclude-part Outcome.returns s rest h = refl
  conclude-part (Outcome.denied c) s rest h = refl
  conclude-part Outcome.transient s rest h = h
  conclude-part Outcome.raises s rest h = refl

  choose-part :
      (b : Bool) (r r' : Recovery) (a : A)
      → part r.after ≡ a
      → part r'.after ≡ a
      → part (if b then r else r').after ≡ a
  choose-part true r r' a h h' = h
  choose-part false r r' a h h' = h'

  attempt_loop-part :
      (tool : ToolDefinition) (args : ArgsModel) (context : ExecutionContext) (attempt left : ℕ)
      (s : Shared)
      → Untouching part tool
      → part (attempt_loop tool args context attempt left s).after ≡ part s
  unfolding attempt_loop
  attempt_loop-part tool args context attempt zero s h =
      let p = tool.handler args context s in
      choose-part _ _ _ _ refl (
        conclude-part p.outcome p.effects (ends_with Ending.exhausted p.effects) refl
        ∙ h.keeps args context s)
  attempt_loop-part tool args context attempt (suc left) s h =
      let p = tool.handler args context s in
      choose-part _ _ _ _ refl (
        conclude-part p.outcome p.effects
          (once_more (backoff_ms attempt)
            (attempt_loop tool args context (attempt + 1) left p.effects))
          (attempt_loop-part tool args context (attempt + 1) left p.effects h)
        ∙ h.keeps args context s)

  pub execute_with_recovery-part :
      (tool : ToolDefinition) (args : ArgsModel) (context : ExecutionContext) (s : Shared)
      → Untouching part tool
      → part (execute_with_recovery tool args context s).after ≡ part s
  unfolding execute_with_recovery
  execute_with_recovery-part tool args context s h =
      attempt_loop-part tool args context 0
        (if is_repeatable tool then tool.policy.max_retries else 0) s h
