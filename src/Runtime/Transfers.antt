-- ===== src/Runtime/Transfers.antt =====
-- Calls of the four tools of tool_governance_demo.py, in any order: the money they move.
use my_ai_agent_fullstack_tr.Base.{
  Bool-cases, List, [], ap, arith, inl, inr, is_some, list_eq, nat_eq, option_eq, pair_eq, refl,
  subst, sym, ℕ, ◌∙◌, ◌∷◌, ◌≡◌,
}
use my_ai_agent_fullstack_tr.Domain.Models.{Text}
use my_ai_agent_fullstack_tr.Runtime.{
  ArgsModel, Effect-discrete, ExecutionContext, Outcome, Outside, PermissionRule, Shared, ToolCall,
  ToolDefinition, Verdict,
}
use my_ai_agent_fullstack_tr.Runtime.Authorized.{Executed-Authorized}
use my_ai_agent_fullstack_tr.Runtime.Course.{
  Course, Every, decide_call-SameEffects, find_tool-Every, invoke-Course,
}
use my_ai_agent_fullstack_tr.Runtime.Engine.{run_precheck}
use my_ai_agent_fullstack_tr.Runtime.Invoke.{
  Ending, attempt_loop, conclude, ends_with, execute_call, execute_with_recovery, expires, invoke,
  report,
}
use my_ai_agent_fullstack_tr.Runtime.Money.{
  Accounts, Conserved, Solvent, move_money-Conserved, move_money-Solvent,
}
use my_ai_agent_fullstack_tr.Runtime.Tools.{
  build_tools, create_refund_handler, create_refund_tool, get_order_handler, get_order_tool,
  run_shell_tool, simulated_shell_handler, transfer_handler, transfer_precheck, transfer_tool,
}
use my_ai_agent_fullstack_tr.Runtime.Untouched.{Untouching, execute_with_recovery-part}
use my_ai_agent_fullstack_tr.Storage.Table.{lookup}

-- What a call may do to the accounts.
pub record Sound (t t' : Accounts) : Type 0 where
  pub conserved : Conserved t t'
  pub stays_solvent : Solvent t → Solvent t'

Sound-refl : (t : Accounts) → Sound t t
Sound-refl t = record { conserved = record { holds = λ tenant. refl }; stays_solvent = λ h. h }

Sound-trans : (t t' t'' : Accounts) → Sound t t' → Sound t' t'' → Sound t t''
Sound-trans t t' t'' a b = record {
  conserved = record {
    holds = λ tenant. omega (arith, a.conserved.holds tenant, b.conserved.holds tenant);
  };
  stays_solvent = λ h. b.stays_solvent (a.stays_solvent h);
}

-- What an execution after a precheck that passed does to the accounts.
record SoundTool (tool : ToolDefinition) : Type 0 where
  pub executes :
      (args : ArgsModel) (context : ExecutionContext) (s s1 : Shared)
      → run_precheck tool args context s ≡ Verdict.passes
      → s1.accounts ≡ s.accounts
      → Sound s.accounts (execute_with_recovery tool args context s1).after.accounts

Untouching-SoundTool : (tool : ToolDefinition) → Untouching (λ s. s.accounts) tool → SoundTool tool
Untouching-SoundTool tool h = record {
  executes = λ args context s s1 passed same.
      subst (Sound s.accounts)
        (sym (execute_with_recovery-part (λ b. b.accounts) tool args context s1 h ∙ same))
        (Sound-refl s.accounts);
}

transfer_handler-Sound :
    (args : ArgsModel) (context : ExecutionContext) (s s1 : Shared)
    → transfer_precheck args context s ≡ Verdict.passes
    → s1.accounts ≡ s.accounts
    → Sound s.accounts (transfer_handler args context s1).effects.accounts
unfolding transfer_handler transfer_precheck
transfer_handler-Sound (ArgsModel.get_order order_id) context s s1 passed same = cc
transfer_handler-Sound (ArgsModel.create_refund order_id amount why) context s s1 passed same = cc
transfer_handler-Sound (ArgsModel.run_shell command) context s s1 passed same = cc
transfer_handler-Sound (ArgsModel.transfer from_account to_account amount) context s s1 passed
      same =
    elim (Bool-cases (is_some (lookup (context.tenant_id, to_account) s1.accounts))) [
      | inl e ↦
          rw (e, same)
            (record {
              conserved =
                  move_money-Conserved context.tenant_id from_account to_account amount s.accounts;
              stays_solvent = move_money-Solvent _ _ amount s.accounts (ground (arith, passed));
            })
      | inr e ↦ rw (e, same) (Sound-refl s.accounts)
    ]

conclude-Sound :
    (t : Accounts) (o : Outcome) (s rest : Shared)
    → Sound t s.accounts
    → Sound t rest.accounts
    → (e : Ending) → Sound t (conclude o s (ends_with e rest)).after.accounts
conclude-Sound t Outcome.returns s rest h k e = h
conclude-Sound t (Outcome.denied c) s rest h k e = h
conclude-Sound t Outcome.transient s rest h k e = k
conclude-Sound t Outcome.raises s rest h k e = h

transfer_tool-SoundTool : (print : ℕ → Text) → SoundTool (transfer_tool print)
unfolding execute_with_recovery attempt_loop Effect-discrete transfer_tool
transfer_tool-SoundTool print = record {
  executes = λ args context s s1 passed same.
      let p = transfer_handler args context s1 in
      let done = transfer_handler-Sound args context s s1 passed same in
      let unchanged = subst (Sound s.accounts) (sym same) (Sound-refl s.accounts) in
      elim (Bool-cases (expires (transfer_tool print) p)) [
        | inl e ↦ rw (e) unchanged
        | inr e ↦ rw (e) (conclude-Sound s.accounts p.outcome p.effects p.effects done done _)
      ];
}

get_order_handler-accounts :
    (args : ArgsModel) (context : ExecutionContext) (s : Shared)
    → (get_order_handler args context s).effects.accounts ≡ s.accounts
unfolding get_order_handler
get_order_handler-accounts (ArgsModel.get_order order_id) context s = ground (arith)
get_order_handler-accounts (ArgsModel.create_refund order_id amount why) context s = refl
get_order_handler-accounts (ArgsModel.run_shell command) context s = refl
get_order_handler-accounts (ArgsModel.transfer from_account to_account amount) context s = refl

create_refund_handler-accounts :
    (args : ArgsModel) (context : ExecutionContext) (s : Shared)
    → (create_refund_handler args context s).effects.accounts ≡ s.accounts
unfolding create_refund_handler
create_refund_handler-accounts (ArgsModel.get_order order_id) context s = refl
create_refund_handler-accounts (ArgsModel.create_refund order_id amount why) context s = refl
create_refund_handler-accounts (ArgsModel.run_shell command) context s = refl
create_refund_handler-accounts (ArgsModel.transfer from_account to_account amount) context s = refl

simulated_shell_handler-accounts :
    (args : ArgsModel) (context : ExecutionContext) (s : Shared)
    → (simulated_shell_handler args context s).effects.accounts ≡ s.accounts
unfolding simulated_shell_handler
simulated_shell_handler-accounts (ArgsModel.get_order order_id) context s = refl
simulated_shell_handler-accounts (ArgsModel.create_refund order_id amount why) context s = refl
simulated_shell_handler-accounts (ArgsModel.run_shell command) context s = refl
simulated_shell_handler-accounts (ArgsModel.transfer from_account to_account amount) context s =
    refl

build_tools-SoundTool : (print : ℕ → Text) → Every SoundTool (build_tools print)
unfolding build_tools get_order_tool create_refund_tool run_shell_tool
build_tools-SoundTool print =
    Every.tool_and
      (Untouching-SoundTool (get_order_tool print) (record { keeps = get_order_handler-accounts }))
      (Every.tool_and
        (Untouching-SoundTool (create_refund_tool print)
          (record { keeps = create_refund_handler-accounts }))
        (Every.tool_and
          (Untouching-SoundTool (run_shell_tool print)
            (record { keeps = simulated_shell_handler-accounts }))
          (Every.tool_and (transfer_tool-SoundTool print) Every.no_tool)))

report-accounts :
    (tool : ToolDefinition) (call : ToolCall) (context : ExecutionContext) (e : Ending) (s : Shared)
    → (report tool call context e s).1.accounts ≡ s.accounts
report-accounts tool call context Ending.returned s = refl
report-accounts tool call context Ending.timed_out s = refl
report-accounts tool call context Ending.exhausted s = refl
report-accounts tool call context Ending.raised s = refl
report-accounts tool call context (Ending.refused c) s = refl

-- A request: the call, with what surrounds it.
pub record Request : Type 0 where
  pub outside : Outside
  pub rules : List PermissionRule
  pub call : ToolCall
  pub context : ExecutionContext

-- Requests one after the other, and the state they leave.
unfoldable pub serve : List ToolDefinition → List Request → Shared → Shared
serve tools [] s = s
serve tools (q ∷ requests) s =
    serve tools requests (invoke q.outside q.rules tools q.call q.context s).1

invoke-Sound :
    (tools : List ToolDefinition) (q : Request) (s : Shared)
    → Every SoundTool tools
    → Sound s.accounts (invoke q.outside q.rules tools q.call q.context s).1.accounts
unfolding Course execute_call
invoke-Sound tools q s all = elim (invoke-Course q.outside q.rules tools q.call q.context s) [
  | inl x ↦
      let kept = decide_call-SameEffects q.outside q.rules x.tool x.args q.context s in
      let r = execute_with_recovery x.tool x.args q.context x.before in
      let sound =
        (find_tool-Every SoundTool q.call.tool_name tools x.tool all x.found).executes x.args
          q.context s x.before
          (Executed-Authorized q.outside q.rules tools q.call q.context s _ _ x).checked
          (ap (λ b. b.accounts) x.before_eq ∙ kept.same_accounts) in
      subst (Sound s.accounts)
        (sym (
          ap (λ b. b.accounts) x.after_eq
          ∙ report-accounts x.tool q.call q.context r.ending r.after))
        sound
  | inr x ↦ subst (Sound s.accounts) (sym x.same_effects.same_accounts) (Sound-refl s.accounts)
]

-- Where all amounts and balances are whole numbers, which floats hold exactly up to 2 ^ 53: whatever
-- requests of such amounts are served by the four tools, in any order, no account of a solvent table
-- is overdrawn, and every tenant's accounts hold together what they held before.
pub serve-Sound :
    (print : ℕ → Text) (requests : List Request) (s : Shared)
    → Sound s.accounts (serve (build_tools print) requests s).accounts
unfolding serve
serve-Sound print [] s = Sound-refl s.accounts
serve-Sound print (q ∷ requests) s =
    Sound-trans _ _ _ (invoke-Sound (build_tools print) q s (build_tools-SoundTool print))
      (serve-Sound print requests _)
