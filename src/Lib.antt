-- ===== src/Lib.antt =====
-- Accountable organizations of agents: the parts of the runtime that decide.
--
-- A person starts a case, a node with a goal and a grant of authority. A node is a state machine
-- (src/lifecycle/node-machine.ts): it looks for context, decides how to go on, executes or delegates,
-- has its result validated, and retries, asks a person or ends. A node that delegates divides its
-- authority among children (src/lifecycle/delegate-child.ts, src/engines/authority.ts); the planner says
-- which children may run together (src/execution/workstreams.ts). What a run shows is judged by the
-- validation engine (src/validation/engine.ts), whose verdict completes, retries or ends a node. The
-- events of all this are appended to a hash chain (src/db/queries/events.ts), and the spend guard
-- (src/efficiency/spend-guard.ts) says when to stop paying.
--
-- Base          shared lists, tests and texts. Identifiers are texts; a Set is a list without
--               repetitions, in order of insertion; sort() orders texts by their characters,
--               which is JavaScript's order where each is one UTF-16 unit.
-- Authority     the Authority record of src/schemas/node-contract.ts; src/engines/authority.ts
--               (effectiveAuthority) and src/engines/enforce-tools.ts; Authority.Custody is
--               src/engines/custody.ts: narrowing and chainOf, whose walk over a Map of nodes is
--               `climb`, with the number of nodes as fuel beside the code's own set of seen ids;
--               Authority.Envelope is src/engines/simulate-authority.ts.
-- Delegation    childAuthority and allocateChildAuthority of src/lifecycle/delegate-child.ts;
--               Delegation.Organization builds the tree of grants that childAuthority makes, with
--               the allowance and the budgets that agents are held to as predicates;
--               Delegation.FanOut is delegateToChildren: the loop over the planner's groups is
--               `run_groups`; the graph of the pieces is an argument, and FanOut.Subgoals builds
--               that of a planner's subgoals, with the verdict on the plan. How the children end is given; a waitForChild that
--               rejects is not modelled. Delegation.Decision is
--               src/engines/decide-execution.ts with src/engines/economics.ts, and Delegation.PlanCheck
--               src/decision/delegation-validator.ts; Delegation.Integration is
--               src/intelligence/integrate-results.ts.
-- Validation    src/validation/contract.ts and src/validation/engine.ts: the ladder of evidence, validate
--               (the loop over the levels is `climb`), canClaimSuccess, nextAfterValidation.
-- Lifecycle     src/lifecycle/node-machine.ts: each state's entry of the machine is a function, `step`
--               handles one event in one state, `run` a list of them; strategyRetryAllowed of
--               src/recovery/engine.ts. An actor's answer (onDone) or failure (onError) is an event of
--               the state that invoked it, so that any order of answers and failures is a list of events.
-- Workstreams   src/execution/workstreams.ts: Graph has the nodes, their ordering edges and conflicts;
--               Scheduler has planWorkstreams, whose while loop is `layers` with the code's own
--               guard as fuel; Fallout has dependentsOf and propagateFailure (src/execution/conflicts.ts).
-- EventLog      src/db/queries/events.ts; the table is the list of its rows in the order of their ids.
--               The digest, the text of a payload and the ids of rows are parameters.
-- SpendGuard    src/efficiency/spend-guard.ts.
-- Limiter       src/execution/dispatch-limit.ts: the calls and the releases of slots are events; Tasks
--               keeps the tasks that run in a list of their own, beside the limiter's count.
-- ExecutionGraph src/execution/graph.ts; whether an answer was reused is an argument.
-- Restart       src/lifecycle/rehydrate.ts and src/lifecycle/orphans.ts with the queries of src/db/queries
--               that they use: each loop over nodes is a list of rounds on the tables.
-- Economy       src/decision: Economy has the state of a run, Economy.State its events (state.ts; a run
--               is `replay` of a list of events), Economy.Doubt uncertainty.ts, Economy.Action
--               actions.ts, Economy.Utility utility.ts, Economy.Trust trust.ts, Economy.Budget
--               budget.ts, and Economy.Choice, Economy.Choice.Execution and Economy.Path the choice
--               of an action, the authorization of a fan-out and the gates of engine.ts. The sort
--               of the candidates is a stable insertion with the code's comparison.
-- Recovery      src/recovery/engine.ts: what a retry inherits.
-- Context       src/context/frontier.ts and src/context/delta.ts.
-- Examples      the code on concrete inputs, and each theorem that has hypotheses applied to some.
--
-- Numbers. Money is counted in millionths of a dollar, and a division of money rounds down where
-- the code keeps a fraction; probabilities, shares and signals are counted in hundredths, those of
-- Economy in millionths, where a division rounds down; the utility of an action is an exact fraction
-- with the denominator of its state. An optional or non-finite number is `none`. Subtraction stops at
-- 0 where the code takes the maximum with 0.
--
-- Fuel. The walk of chainOf visits each node once at most, so as many steps as there are nodes are
-- enough; the guard of planWorkstreams is the code's own, one more than the number of nodes, and
-- every round but the last schedules a node; dependentsOf makes as many passes as there are nodes,
-- as the code does.
--
-- Not modelled: the adapters to the agents' runtimes, the sandboxes on Kubernetes, the server, the
-- user interfaces, the command line and the database layer are input and output; prompts and
-- schemas are data; the actors of the state machine and the sources of evidence are reached through
-- their answers. A failure of an actor in a state that has no onError entry is not an event here.
-- The scoring of context, the routing of models, the learning of policies, the strategies of a dispatch
-- and the evaluation of recoveries are also left out.
pub mod Base
pub mod Authority
pub mod Context
pub mod Delegation
pub mod Economy
pub mod EventLog
pub mod ExecutionGraph
pub mod Validation
pub mod Lifecycle
pub mod Limiter
pub mod Recovery
pub mod Restart
pub mod SpendGuard
pub mod Workstreams
pub mod Examples
