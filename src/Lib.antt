-- ===== src/Lib.antt =====
-- NOVA: the task graphs of the planning engine, their dispatch by the kernel of agent-os, the
-- conversations of the communication engine, the actions of the action engine, and the routing of
-- requests to models.
--
-- The planning engine (services/planning-engine) stores graphs of tasks. A node is pending until
-- its dependencies are completed, ready when it may start, and running once a write has published
-- and handed it off. The agents report outcomes as `agent_os.task.completed`, whose handler turns
-- an outcome into transitions and publishes the graph again. The kernel (agent-os/kernel) gives the
-- ready nodes of a published graph to agents, retries a failed one once, has results reviewed, and
-- reports the outcomes; after a restart it reports the lost ones. The communication engine
-- (services/communication-engine) moves conversation sessions through a table of states and puts
-- an event into its outbox for every change, which the other engines follow. They share the event
-- contracts of packages/nova-contracts.
--
-- Common holds list, option and number helpers, and a dict with Python's insertion order.
-- Contracts holds the shared enumerations.
--
-- Planning.Model is domain/models.py; a float is a type parameter. Planning.Admission is the
-- admission, duplicate and dangling checks of domain/task_graph.py, Planning.Cycle its depth-first
-- search, with the colours and the path of `visit` as an explicit state. Planning.Completion is
-- domain/task_completion.py. Planning.Store is repository/postgres_planning_repository.py and
-- events/task_completed_handler.py: a store is its graphs in order of insertion and its outbox, and
-- a transaction that raises leaves it as it was. The builder of the outbox row is an argument, as
-- it is in the code.
--
-- Communication.StateMachine is domain/state_machine.py. Communication.Store is the repository's
-- methods, each a transaction of its own. Communication.Lifecycle is domain/session_lifecycle.py,
-- Communication.Sessions and Communication.Requests are the handlers of api/sessions.py and
-- api/websocket.py that load a session and call it. Communication.Delivery is domain/intent_gate.py,
-- domain/conversation_memory.py and the delivery of events/handlers.py; what the personality engine
-- and the channel answer is an argument. Clocks and new ids are arguments.
--
-- Kernel.Model is domain/models.py and the contracts of agents, Kernel.State the repository and the
-- ports of domain/ports.py, functions on the state of everything outside that may raise.
-- Kernel.Scheduler is domain/scheduler.py, with asyncio.gather as an argument of the batch, and
-- Kernel.Reconciliation domain/reconciliation.py.
--
-- Supervisors.Conflict is domain/conflict.py of agent-os/supervisors, with the two ports as
-- arguments and the logs of questions and decisions in the state; Supervisors.Restart is
-- domain/restart.py, the plans that the kernel's retry follows; a started_order is a natural number.
--
-- Action.Model is domain/models.py of services/action-engine and the contracts of actions,
-- Action.Risk domain/risk.py, and Action.Store domain/ports.py and the repository: the four tables,
-- the published events and the log of capability calls, with the ports as functions on the state of
-- everything outside. Action.Approval is the approval loop of domain/pipeline.py and
-- api/approvals.py, whose requests are served before each poll and before a timeout is recorded.
-- Action.Execution and Action.Pipeline are `execute_action`, one function for each part that ends in
-- a reply. Action.Progress and Action.Steps hold what every step keeps, and Action.Replies,
-- Action.Waiting, Action.Concluding, Action.Gated, Action.Outcomes and Action.Runs follow the code.
--
-- Router.Model is domain/models.py of services/ai-model-orchestration-engine, Router.Plan
-- domain/capability_matrix.py and the planning of domain/router.py, over an interface for floats,
-- Router.Route the attempts, with get_connector and its refusals as an argument, and Router.Record
-- the usage records. Router.Embed has the embedding routes, ranked by cost, and Router.Perceive
-- the perception routes that record as they go; both have their own loops. The other routes share one
-- loop here, as they repeat it in the code; Router.Pool and Router.Attempts follow it.
--
-- The wait for an approval recurses on fuel, one unit for each poll; a time is a whole number of
-- microseconds. The depth-first search recurses on fuel: a visit paints a white node grey, so the
-- number of nodes bounds the depth of its calls. Every other loop is structural.
--
-- Not modelled: the other engines, HTTP and message transport, the database's locks and
-- isolation, the interleaving of the dispatches of one batch, logging and metrics, the texts that
-- explain a decision, the peer-review round of the supervisors, and the critical path with its float
-- arithmetic.
pub mod Common
pub mod Contracts
pub mod Planning
pub mod Communication
pub mod Kernel
pub mod Supervisors
pub mod Action
pub mod Router
