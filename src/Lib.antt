-- ===== src/Lib.antt =====
-- Layer OS, the runtime of internal/runtime: the stores of work, approvals, releases, policies, flows
-- and branches, the log of events, the review room, and the methods of Service that change them and
-- write what changed to files.
--
-- The program. A Service (internal/runtime/service.go) holds a store for each kind of item. A method
-- locks it, checks its arguments against the stores, changes its own store, appends an event, opens a
-- review item where something failed, and calls persistLocked, which compares each domain's JSON with
-- what was last written and saves the domains that differ. On an error the method puts the old items
-- back. internal/api and cmd/ call these methods over HTTP and from the command line.
--
-- The files.
--   Base      shared names, Boolean tests, Go's errors as `Result`, lists
--   Text      strings.TrimSpace and the like; Json: the check of `map[string]any` in json_value.go
--   Types     the structs and Validate methods of types*.go, event.go, review_room*.go, one record
--             and one function for each
--   Files     what the runtime uses of path/filepath, and the test of a path against prefixes of
--             service_job_report.go
--   Env       what one run of a method reads from outside: the clock, the actor, the limits, and
--             what the files answer to each write
--   Stores    the item stores of work.go, proposal.go, approval.go, release.go, deploy.go,
--             flow.go, preflight.go, policy.go, gateway.go, execute.go, verify.go, agent_job.go,
--             branch.go, state.go, memory.go
--   EventStore event.go, EventStore.History its steps against a plain history, with rollbacks
--   Review    review_room.go, review_room_item.go, review_room_auto.go,
--             review_room_contradiction.go, review_room_audit.go; Review.Evidence: the loop that
--             resolves items by evidence
--   State     the Service and its files; Persist: persistLocked of service.go
--   Runtime   the methods of service.go, service_control.go, service_release.go,
--             service_proposal.go, service_branch.go and service_job.go (Verify: preflights and
--             verifications, Gateway: gateway calls, Agenda: the room's own methods, Commands:
--             those that run a command, Jobs: agent jobs, with their reports of
--             service_job_report.go in Jobs.Evidence and Jobs.Report, their chains of
--             service_job_chain.go in Jobs.Chain, and what reclaimStaleJobsOnStartup does in
--             Jobs.Reclaim). `finish` is their common end; Runtime.Intact and Runtime.Outcomes say
--             what an error and a success leave, Runtime.Calls has the methods as calls,
--             Runtime.Tokens those on the tokens
--   Auth      auth.go, operator_identity.go: the tokens of writes, the hash a parameter
--   Samples   a concrete service; Examples, EventExamples, RoomExamples, TokenExamples,
--             RuntimeExamples, CommandExamples, JobExamples: the theorems on concrete runs
--
-- Choices. A time is a number of nanoseconds, 0 for Go's zero time; the readings of the clock
-- within a method are one value, but the two of an event. A nil slice or map is `none` where the
-- code tells it from an empty one. `json.Marshal` is a parameter `encode`, of which nothing is
-- assumed. A mutex makes a method one step; the methods that run a command and gateway calls
-- lock twice, and there the service of the second time is any. Actors' names are ASCII text: the
-- lower case of other letters is left aside. A loop is a recursion on the list that it walks;
-- the loop that resolves items by evidence alone has fuel, one more than the room has items,
-- since each turn takes one out. An adapter of the gateway is a record of functions; the
-- recording and the packet adapter are written out. What os.Stat and a command answer is a
-- parameter, as are the CRC of a text and the decoding of chain rules, and the separator of
-- paths is `/`. Each file is written whole or not at all.
--
-- Not modelled: the HTTP and command-line layers, the daemon's loops, the adapters of model
-- providers and of Telegram, the job dispatch (an argument of the chains) and its councils, what
-- a job report writes behind the change of its job, ingestion, the audits (a parameter: their
-- items), the views that only read, and reading the files at start. In persistLocked the session
-- checkpoint written beside the continuity records is left out.
pub mod Base
pub mod Text
pub mod Json
pub mod Types
pub mod Env
pub mod Stores
pub mod EventStore
pub mod Review
pub mod State
pub mod Persist
pub mod Runtime
pub mod Auth
pub mod Samples
pub mod Examples
pub mod CommandExamples
pub mod EventExamples
pub mod Files
pub mod JobExamples
pub mod RoomExamples
pub mod RuntimeExamples
pub mod TokenExamples
