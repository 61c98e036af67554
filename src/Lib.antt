-- ===== src/Lib.antt =====
-- Three programs of the repository: the guarded harness of week03_guarded-harness/src/guarded_harness
-- (the persistent state of an agent's runs, their audit chain, the approvals that guard the execution
-- of tool calls, and the policy), the tool runtime of week02_tool-runtime, and the gateway to language
-- models of week01_llm-gateway/app. They share no code.
--
-- The harness. All parts share one SQLite database. A caller opens a transaction (storage.py), and
-- works in it with the state store (state_store.py), the approval store (approval.py) and the audit
-- store (audit.py). Each operation that writes checks the lease of the run, checks and updates rows
-- by their status and revision, and appends an audit event; the approval store stops a run by way
-- of the state store. What raises rolls the transaction back.
--
-- Domain models domain.py: the enumerations (Domain/Status, Domain/ErrorCode), and the persisted
-- models with the checks of their `model_post_init` (Domain/Models). Domain/Decimal has the rounding of
-- Python's `Decimal`, which the token cost of a budget is counted in.
-- Storage models storage.py: tables as association lists (Storage/Table), the rows and the database
-- (Storage/Rows), operations as functions from a database to a result and a database (Storage/Exec),
-- what a block that returned has passed (Storage/Inversion), and the atomicity of `transaction`
-- (Storage/Atomic).
-- Audit models audit.py: `append`, `head` and `verify_chain`; Audit/Chain and Audit/Tamper are about
-- the chain.
-- State models state_store.py: the shared steps (State/Access: `_verify_lease`, `get_run`,
-- `_touch_run`, `_append_event`), leases (State/Lease), runs (State/Runs), steps (State/Steps), tool
-- calls (State/Invocations) and the budget (State/Budget), each with its proofs in a folder beside it.
-- Approval models approval.py: reads, binding and expiry in Approval, `create` in Approval/Create,
-- `approve` and `reject` in Approval/Decide, `claim`, `resume_claim`, `consume` and `invalidate` in
-- Approval/Claim; all of them as one type of commands in Approval/Commands.
-- Completion models the merge of checks, the acceptance and the coverage of lines of completion.py,
-- with their proofs in Completion/Acceptance and Completion/Coverage.
-- Policy models policy.py: the decisions by role, mode and risk; Policy/Grants says whom they let pass.
--
-- The tool runtime. Runtime models tool_governance_demo.py: its data in Runtime, `ApprovalStore` in
-- Runtime/Approvals, `PermissionEngine` in Runtime/Engine, the models of arguments in Runtime/Args,
-- `ToolRuntime` in Runtime/Invoke, the four tools in Runtime/Tools. A call is validated, decided (which
-- may use an approval up), recorded, executed with retries and recorded again. The proofs stand in
-- Runtime/Conditions and Runtime/Authorized (what is allowed), Runtime/OneUse and Runtime/Grants
-- (approvals), Runtime/Attempts, Runtime/Money, Runtime/Transfers and Runtime/Moved (the accounts),
-- Runtime/Reports and Runtime/Answers (results and audit); Runtime/Course and Runtime/Untouched carry
-- them.
--
-- The gateway. Gateway has the configuration (config.py), Gateway/RateLimit models
-- core/rate_limit.py, Gateway/Router services/router.py, Gateway/Complete the method `complete` of
-- services/gateway.py, which asks the router for routes, tries them on one budget of attempts, and
-- repairs output that does not fit its schema, Gateway/Chunks and Gateway/Stream its method `stream`, and
-- Gateway/Usage the usage that both add up. Proofs stand in a folder beside the file they are about.
--
-- Tests has small states, and runs of the operations in them.
--
-- In the harness, identifiers, digests, tokens and instants are natural numbers (an instant counts
-- microseconds); texts that the code inspects are lists of code points. The clock is a function from
-- the number of a reading to an instant, and nothing is assumed of it. SHA-256, the canonical JSON
-- before it, Python's `strip`, `casefold`, `sorted`, `isupper` and `isdigit`, and the fresh identifiers
-- are fields of `Env`, with nothing assumed of them where a theorem does not say so. In the runtime and
-- the gateway an instant counts milliseconds, and floats are exact: amounts of money are whole numbers,
-- calls with other amounts are not modelled, and the tokens of a limiter are counted in parts of
-- 1/60000. The search of a regular expression, the digest of
-- arguments and the text of an amount are parameters there, as are the answers of the upstream, which
-- may differ with every attempt. Loops are over lists or over the retries that are left, but for those
-- of `complete` and of `stream`, which run on fuel: one round more than the repairs that are allowed,
-- and one attempt more than the budget of attempts has, are enough.
--
-- Not modelled: the SQL text and its parsing, the schema's migrations, the fault injector, the
-- redaction of texts, the summaries of audit events, the listings, `expire_due`, and the other parts
-- of the harness (registry, gate, checkpoints, the completion checker, sandbox, tools); of the
-- runtime, the contents of results, their redaction and the demonstrations; of the gateway, the
-- prompts, the usage records, the cancellation of a stream's task, the errors of httpx that
-- `request_json` lets pass, the adapters, the validation of structured output and the HTTP layer. A
-- constraint of a table is modelled where no check of the code implies it and a model that is built
-- from the row does not repeat it.
pub mod Base
pub mod Domain
pub mod Storage
pub mod Approval
pub mod Audit
pub mod Policy
pub mod Completion
pub mod Runtime
pub mod Gateway
pub mod State
pub mod Tests
