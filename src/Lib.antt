-- ===== src/Lib.antt =====
-- A model of the core of AetherClaw, an agent gateway written in Go, and theorems about it.
--
-- Common: texts (lists of ASCII codes, with the part of package strings that the program uses),
--   maps as association lists, and a matcher for the part of package regexp that it uses.
-- Providers: pkg/providers. A request goes to the first of several candidate models that answers.
--   Types models types.go, ModelRef model_ref.go, Cooldown cooldown.go, Classify
--   error_classifier.go, and Fallback fallback.go: the candidates, Execute and ExecuteImage. The
--   chain asks the cooldown tracker before each call, classifies the error of a failed call, and
--   marks the tracker. AuthRotation models auth_rotation.go, which picks a key by the same tracker.
--   A name in snake case is the Go name in camel case.
-- Routing: pkg/routing. AgentId models agent_id.go, SessionKey session_key.go, and Route route.go
--   with what it reads of pkg/config/config.go: the bindings are filtered by channel and account,
--   the first of six levels with a match names the agent, and the keys of the session are built.
-- Tools: pkg/tools. Registry models registry.go with base.go, hooks.go and result.go: the tools,
--   and the hooks around each call of one. Registry/Policy models policy.go and groups.go,
--   Autonomy autonomy.go, and LoopDetector loop_detector.go: the two hooks. Guarded is a registry
--   with the loop detector as its hook. ToolLoop models toolloop.go, which asks a provider and runs
--   the tools that it calls (the messages and calls of Providers/ToolCall).
-- Channels: pkg/channels. Split models split.go, which cuts a text into messages.
-- Multiagent: pkg/multiagent. Dedup models dedup.go, the cache of operations already done, and
--   Announce announce.go, the bounded queues of results for the agents that wait for them. Cascade
--   models cascade.go, the tree of runs, and Spawn spawn.go, which starts an agent unless the cache
--   or the limit of the parent refuses it, registers its run, and announces its result. Handoff
--   models handoff.go and handoff_tool.go over the tools of the target, and Blackboard blackboard.go.
-- Session: pkg/session. Manager models manager.go: the messages and the summary of each session, and
--   the files that hold them.
-- Agent: pkg/agent. History models what context.go does to a history before it is sent to a
--   provider, and Summarize what loop.go does to one that has grown too long, through the manager
--   of the sessions.
-- Pairing: pkg/pairing. The store of pairing.go, with its codes and approvals.
-- Media: pkg/media. The store of files with references and scopes (store.go).
-- Cron: pkg/cron. The jobs of service.go and their schedules, the service, and the executions.
--
-- Methods that hold a mutex are atomic steps. Times and durations are natural numbers of
-- nanoseconds, in Cron of milliseconds, and the answers of clocks, contexts, callers, files, random
-- numbers, JSON and digests are parameters. Texts beyond ASCII, logging and the texts of error
-- messages are not modelled, nor is the wrap-around of 64-bit counts. A negative size, threshold or
-- time to live counts as 0, as in the code.
-- The loops are recursions over the list that the program walks, so they need no fuel, with three
-- exceptions. The loop of SplitMessage has fuel for its rounds, since it need not end. The
-- recursion of CascadeStop has one more than the number of runs, since each call within another
-- removes a run. The fuel of RunToolLoop is its maximum of iterations.
-- Not modelled are the clients of model providers and of chat services, the tools that reach files,
-- processes and the network, the message loop and the building of prompts, configuration files,
-- migration, logging, and the commands: they are I/O, or data in formats.
pub mod Agent
pub mod Channels
pub mod Common
pub mod Cron
pub mod Media
pub mod Multiagent
pub mod Pairing
pub mod Providers
pub mod Routing
pub mod Session
pub mod Tools
