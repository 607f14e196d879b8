-- ===== src/Lib.antt =====
-- A model of coflowai, a runtime for AI agents and workflows, with the theorems about its core.
--
-- A runtime (coflowai/runtime/runtime.py) runs executables. Each execution has a record and a row
-- of checkpoints in the state store, a context with its counters, limits and permissions, and a log
-- of events. A service puts jobs on a queue; workers lease them and call the runtime. The files:
--
-- - Base: shared names, tests on numbers and texts, lists, Python's dict, JSON values.
-- - Core/Types, Core/Errors, Core/Retry, Core/Context, Core/Result: coflowai/core/types.py,
--   exceptions.py, retry.py, context.py and result.py. Core/Types/Machine is the state machine of the
--   statuses, Core/Context/Scopes is about children, Core/Context/Budgets about limits.
--   Core/Session: what calls of models and tools change. Core/Messages: messages, responses, overrides.
-- - Policies/Permissions and Policies/Policy: coflowai/policies/permissions.py and policy.py.
-- - State/Checkpoint and State/Store: coflowai/state/checkpoint.py and store.py.
-- - Events/InMemory and Events/Jsonl: the two stores of coflowai/events/store.py; Jsonl has the dict
--   form of an event too, and takes `json` as an argument.
-- - Distributed/Queue: coflowai/distributed/queue.py; Distributed/Worker and Distributed/Service:
--   coflowai/distributed/worker.py. The worker sees the runtime through the record `RuntimeOps`.
-- - Runtime/Runtime, Runtime/Drive, Runtime/Control, Runtime/Runs: coflowai/runtime/runtime.py. Drive
--   has `_drive`, Control has `_decide` and `cancel`, Runs has `run`, `resume`, `approve`, `reject`.
--   Runtime/Replay: coflowai/runtime/replay.py.
-- - Tools/Registry, Models/Registry, Observability/Usage, Approvals/Approval: coflowai/tools/registry.py,
--   coflowai/models/registry.py, coflowai/observability/usage.py and coflowai/approvals/approval.py.
-- - Workflows/Executable, Workflows/Nodes, Workflows/Parallel: coflowai/core/executable.py and the
--   composite nodes of coflowai/workflows/node.py. Workflows/Workflow: `Workflow.execute` of workflow.py.
--   Workflows/Compiler: the validations of compiler.py; Workflows/Compiler/Compile: its `compile`.
-- - Tools/Calls, Tools/Executor: coflowai/tools/executor.py. Calls has the data, the rate limit, the
--   timeout and the retry policy; Executor has the pipeline of `execute`.
-- - Models/Gateway: `ModelGateway.call` of coflowai/models/gateway.py; Models/Gateway/Stream: its
--   `stream`. Models/Streaming: coflowai/models/streaming.py.
-- - Context/Builder, Context/Build: coflowai/context/builder.py; Builder has what is done to one section,
--   Build the sections and `build`.
-- - Agents/Agent: `Agent.execute` of coflowai/agents/agent.py, over the messages of Core/Messages.
-- - Tests: the theorems at concrete inputs.
--
-- A function here has the name of the function or method it models, without a leading underscore; a
-- function whose name ends in `_with`, `_from`, `_record` or `_target` is the rest of a method from
-- some early return on. An object that is changed in place is passed and returned. An exception is
-- the case `err` of `Result`; the state that was reached is returned beside it.
--
-- Bounds and fuel. Integers of Python have no bound and are natural numbers here: no counter is
-- negative where the program counts up from 0, and a difference in `absorb` is one of a child that
-- only adds to its baseline. Floats (costs, delays, times) are whole numbers of a fixed unit; the
-- ratio of a budget is a pair of numbers. The retry loop has fuel for one call more than there are
-- attempts, which is enough by the result about it. The search of the compiler has fuel for one id
-- more than there are edges, since an edge adds its target once, and so has its visit of nodes,
-- since the nodes under way are different and have edges. The loop of the global cap in the context
-- builder has fuel for its rounds; how much is enough without a summariser is said by the result
-- about it. A permission is the list of its code points.
--
-- Arguments. An executable is a parameter: a function from its context and the runtime to an
-- outcome, a context and a runtime. Fresh ids, the clock, the random draw of a delay, the hash and
-- the signature of an executable are arguments. In the files of Workflows the world outside of a
-- context is a parameter, which the nodes change through `Services`; the parts of a node are
-- executables on that world. A parallel node runs its branches one after the other, and its end is
-- a function of the outcomes.
--
-- Not modelled: payloads of events, time stamps, metrics, traces, subscribers of events, tasks and
-- timeouts of asyncio beyond their outcome, `fork` and `stream` of the runtime, the worker pool,
-- the Redis queue, sandboxes, the building of workflows, streams and prompts of agents, the default
-- summariser, memory, providers, databases, plugins, the command line. A step of one method is not
-- interleaved with steps of others, except for the queue, whose runs are sequences of steps in any
-- order.
pub mod Base
pub mod Core
pub mod Policies
pub mod State
pub mod Events
pub mod Distributed
pub mod Runtime
pub mod Tools
pub mod Models
pub mod Observability
pub mod Approvals
pub mod Context
pub mod Workflows
pub mod Agents
pub mod Tests
