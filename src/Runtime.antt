-- ===== src/Runtime.antt =====
-- The tool runtime of week02_tool-runtime/tool_governance_demo.py: its data. Texts are lists of code
-- points, instants and delays are in milliseconds, and amounts are whole, where Python's floats are
-- exact.
pub mod Approvals
pub mod Engine
pub mod Invoke
pub mod Args
pub mod Conditions
pub mod Authorized
pub mod Course
pub mod Untouched
pub mod OneUse
pub mod Grants
pub mod Attempts
pub mod Money
pub mod Transfers
pub mod Moved
pub mod Reports
pub mod Answers
pub mod Tools
use my_ai_agent_fullstack_tr.Base.{Bool, Eq, List, Option, ℕ}
use my_ai_agent_fullstack_tr.Domain.Models.{Text}
use my_ai_agent_fullstack_tr.Policy.{requires_approval}
use my_ai_agent_fullstack_tr.Storage.Table.{Table}

-- `class PermissionMode`, `class Effect`, `class Risk` and `class DecisionAction`
pub data PermissionMode : Type 0 where
  default plan bypass_permissions dont_ask : PermissionMode

pub data Effect : Type 0 where
  read write shell : Effect

pub data Risk : Type 0 where
  low medium high : Risk

pub data DecisionAction : Type 0 where
  allow deny confirm : DecisionAction

pub data Permission : Type 0 where
  order_read refund_create shell_run transfer_execute : Permission

-- The codes of decisions and results, and those that a `PolicyDenied` carries.
pub data Code : Type 0 where
  deny_rule plan_mode_denied tool_not_allowed permission_denied approved approval_required : Code
  bypass_allowed allow_rule dangerous_operation default_allowed tool_not_found : Code
  invalid_argument timeout timeout_unknown tool_error success : Code
  order_not_found business_rule_denied exceed_limit insufficient_balance account_not_found : Code

unfoldable pub PermissionMode-discrete : Discrete PermissionMode
PermissionMode-discrete = hlevel

unfoldable pub Effect-discrete : Discrete Effect
Effect-discrete = hlevel

unfoldable pub Risk-discrete : Discrete Risk
Risk-discrete = hlevel

unfoldable pub DecisionAction-discrete : Discrete DecisionAction
DecisionAction-discrete = hlevel

unfoldable pub Permission-discrete : Discrete Permission
Permission-discrete = hlevel

unfoldable pub Code-discrete : Discrete Code
Code-discrete = hlevel

instance abbrev pub permission_mode_eq : Eq PermissionMode
permission_mode_eq = record { dec = PermissionMode-discrete }

instance abbrev pub effect_eq : Eq Effect
effect_eq = record { dec = Effect-discrete }

instance abbrev pub risk_eq : Eq Risk
risk_eq = record { dec = Risk-discrete }

instance abbrev pub decision_action_eq : Eq DecisionAction
decision_action_eq = record { dec = DecisionAction-discrete }

instance abbrev pub permission_eq : Eq Permission
permission_eq = record { dec = Permission-discrete }

instance abbrev pub code_eq : Eq Code
code_eq = record { dec = Code-discrete }

-- `class ExecutionContext`
pub record ExecutionContext : Type 0 where
  pub trace_id : Text
  pub user_id : Text
  pub tenant_id : Text
  pub mode : PermissionMode
  pub permissions : List Permission
  pub allowed_tools : List Text
  pub approval_id : Option Text

-- `class ToolPolicy`
pub record ToolPolicy : Type 0 where
  pub effect : Effect
  pub risk : Risk
  pub permission : Permission
  pub requires_approval : Bool
  pub timeout_ms : ℕ
  pub max_retries : ℕ
  pub idempotent : Bool

-- The four models of arguments (`GetOrderArgs` and so on), by the tool that takes them.
pub data ParametersModel : Type 0 where
  get_order_args create_refund_args run_shell_args transfer_args : ParametersModel

-- `ArgsModel`: validated arguments.
pub data ArgsModel : Type 0 where
  get_order : Text → ArgsModel
  create_refund : Text → ℕ → Text → ArgsModel
  run_shell : Text → ArgsModel
  transfer : Text → Text → ℕ → ArgsModel

-- A value of `ToolCall.arguments`: a text, a whole number, or anything else but a number.
pub data Value : Type 0 where
  text : Text → Value
  number : ℕ → Value
  other : Value

-- `class ToolCall`
pub record ToolCall : Type 0 where
  pub tool_call_id : Text
  pub tool_name : Text
  pub arguments : Table Text Value

-- `class PermissionRule`; its effect is `allow` or `deny`.
pub record PermissionRule : Type 0 where
  pub rule_action : DecisionAction
  pub rule_tool : Text
  pub target_prefix : Option Text

pub data DecisionSource : Type 0 where
  rule mode whitelist rbac business approval risk default : DecisionSource

unfoldable pub DecisionSource-discrete : Discrete DecisionSource
DecisionSource-discrete = hlevel

instance abbrev pub decision_source_eq : Eq DecisionSource
decision_source_eq = record { dec = DecisionSource-discrete }

-- `class PermissionDecision`, without its reason.
pub record PermissionDecision : Type 0 where
  pub action : DecisionAction
  pub code : Code
  pub source : DecisionSource

-- `class ToolResult`, without its content.
pub record ToolResult : Type 0 where
  pub result_ok : Bool
  pub result_action : DecisionAction
  pub result_code : Code

-- The `phase` and the `decision` of an audit record, in one.
pub data AuditPhase : Type 0 where
  decided : DecisionAction → AuditPhase
  executed failed : AuditPhase

-- `class AuditRecord`, without the keys of the arguments and the latency.
pub record AuditRecord : Type 0 where
  pub trace_id : Text
  pub tool_call_id : Text
  pub tool_name : Text
  pub user_id : Text
  pub tenant_id : Text
  pub phase : AuditPhase
  pub code : Code

-- `class ApprovalRecord`
pub record ApprovalRecord : Type 0 where
  pub user_id : Text
  pub tenant_id : Text
  pub tool_name : Text
  pub digest : ℕ
  pub expires_at : ℕ
  pub used : Bool

-- The balance of an account, which can fall below 0: what was paid in, less what was paid out.
pub record Balance : Type 0 where
  pub credits : ℕ
  pub debits : ℕ

-- The state that calls share: `ApprovalStore._records`, `AuditSink.records`, `ACCOUNTS` and
-- `SIDE_EFFECTS`.
pub record Shared : Type 0 where
  pub approvals : Table Text ApprovalRecord
  pub records : List AuditRecord
  pub accounts : Table (Text × Text) Balance
  pub refund_executions : ℕ
  pub shell_executions : ℕ

-- What a handler does: it waits, then it has its effects and returns, or raises a `PolicyDenied`, a
-- `TransientToolError`, or any other exception than a `TimeoutError`.
pub data Outcome : Type 0 where
  returns : Outcome
  denied : Code → Outcome
  transient raises : Outcome

pub record Performance : Type 0 where
  pub waits : ℕ
  pub outcome : Outcome
  pub effects : Shared

-- What a precheck finds; `raises` is any other exception than a `PolicyDenied`.
pub data Verdict : Type 0 where
  passes : Verdict
  denies : Code → Verdict
  raises : Verdict

-- `class ToolDefinition`, without its description. A handler suspends at most once, before its
-- effects, as those of the file do.
pub record ToolDefinition : Type 0 where
  pub name : Text
  pub parameters_model : ParametersModel
  pub policy : ToolPolicy
  pub handler : ArgsModel → ExecutionContext → Shared → Performance
  pub canonical_target : ArgsModel → Text
  pub precheck : Option (ArgsModel → ExecutionContext → Shared → Verdict)

-- The patterns of `DANGEROUS_SHELL_PATTERNS`
pub data ShellPattern : Type 0 where
  rm_rf git_push_force git_reset_hard sudo mkfs write_dev : ShellPattern

-- What the runtime takes from outside: the clock, the SHA-256 of the canonical JSON, and the search
-- of a regular expression.
pub record Outside : Type 0 where
  pub time_ms : ℕ
  pub approval_digest : Text → ArgsModel → ℕ
  pub search : ShellPattern → Text → Bool
