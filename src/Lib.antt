-- ===== src/Lib.antt =====
-- City Nodes: the services that keep a network of community nodes and the proposals to join it.
--
-- The program is a plugin API over a Postgres database. plugins/proposals reviews proposals: a host
-- submits one, an administrator approves, rejects, reopens or removes it, and the host reports how
-- applying or removing it went. api/src/services keeps the geography tree of nodes and the staking
-- validators of each node, the tenants with their hostnames and bindings, and the attendance of
-- events, and reads the chain through its RPC client; the pages read the DAO's proposals and policy.
--
-- Prelude, Json: lists, tests, texts and JSON values that the parts share.
--
-- Proposals (plugins/proposals/src/services/proposals.ts, db/schema.ts, contract.ts):
--   Types: the three tables as lists of records, in the order of insertion. Table: the select,
--   update and insert statements with the keys of the schema. Rules: the helpers at the top of the
--   file. Changes: the columns that each transaction sets. Plans, Propose: from the row that a call
--   read to a refusal or a planned transaction (approve, reject, reopen, remove as plan_remove,
--   markApplied as plan_mark_applied, and so on). Steps: recordApplyStep, one locked transaction.
--   Service: each call from its read to its reply. System: calls that interleave, as a step
--   relation: a call reads and plans, and commits later or never. Queries, Pages, History: the
--   conditions and the pages of the reads.
--   Proofs: Lifecycle, Planned, Evolution, Invariant, StepLaws, Reachable, Races, Keys,
--   Idempotency, StepsFinal.
--
-- Proposals, requests (plugins/proposals/src/index.ts, services/node-applicant.ts): Session is the
--   request context and the guards, Applicants the checks of an application for a node, Router the
--   handlers that write with the events they publish, Readers the handlers that read and the events
--   that a subscriber is shown. Parameters: the schema of the payload (a zod schema), the chain's
--   view call, toLowerCase, and the order of the rows.
--   Proofs: Guards (requireAdmin), Access, Privacy, Hidden.
--
-- Geography (api/src/services/nodes.ts, api/src/services/validators.ts, api/src/db/schema.ts):
--   Types: the tables. Tree: the recursive queries; a level of WITH RECURSIVE is computed from the
--   one before, with as many rounds as there are nodes, which is enough because a path holds no
--   node twice (Fuel). Validators, Staking: validators.ts. Slugs, Nodes, NodeQueries: nodes.ts.
--   Growth: writes of nodes one after the other.
--   Proofs: Defaults, Keeps, OneDefault, UpdateKeeps (default validators), Stakeable, Sorting,
--   Resolution (staking),
--   Chains, Visits, Subtree, Ancestors (chains of parents beside the recursive queries), Moves,
--   Forest, Spawned, Deleted, Results (the forest of nodes), References (foreign keys), Resolve.
--
-- Teams (api/src/services/team-join-requests.ts, api/src/team-join-policy.ts, api/src/db/schema.ts):
--   Types: the tables of requests and endorsements. Store: the calls, with the unique indexes.
--   Policy: which pending requests a community no longer allows, and the closures that
--   loadTeamCommunity of api/src/index.ts makes of them. Handlers: the handlers of api/src/index.ts
--   that ask, withdraw, endorse and decide; other calls may run between a read and a write. The
--   answers of the auth service are parameters.
--   Proofs: Tables (calls one after the other), Endorsed, Keys (the unique indexes and the foreign
--   key), Decided, Decisions, Sweeps, Closing.
--
-- Tenants (api/src/services/tenants.ts, api/src/db/schema.ts):
--   Types, Rows: the tables and the statements, with the keys of the schema. Hostnames, Bindings:
--   host names, their verification and the primary one. Communities: applyNodeProposal, whose
--   selects may read older tables than its inserts meet, and releaseNodeProposal. Service, Apps: the
--   other calls. Calls: the calls that write, one after the other. Parameters: the TXT records of a
--   host, and the text of a nested JSON value.
--   Proofs: Distinct, Gives (predicates on answers), Sound, BindingsSound, TenantsSound, Recovered,
--   CommunitiesSound, Invariant, Created, Resumed, Restored, Primary, Finds, Hosts (host names as
--   a map).
--
-- Dao (ui/src/lib/sputnik-proposals.ts):
--   Types: what the contract of a DAO answers. Reading: the pages of proposals and the reads back to
--   an instant, with newest_first for the sort; the fuel of a walk is more than the identifiers, each
--   page or range being of one at least. Policy: roles, permissions and thresholds. Status: the status
--   shown and the match of a plan. A decimal text is the number it denotes. Parameters: the view calls.
--   Proofs: Order, Walk, Since, Open, Majority.
--
-- Attendance (api/src/services/attendance.ts, api/src/db/schema.ts):
--   Types: the tables, what the service of codes answers, and steps that keep their writes when a
--   later one fails. Recording: recordCode. Reconcile: reconcile, an event after the other. History:
--   recordedOrganizations and history. Parameters: the service of codes, Date.parse, localeCompare.
--   Proofs: Kept, Reconciled, Sorted, Entries, Earliest.
--
-- Rpc (api/src/services/near-rpc.ts, of which plugins/proposals has a copy):
--   Texts, Endpoints: networks, endpoints and delays. Answers: what postView makes of a response.
--   Calls: viewFunction and its attempts. Parameters: the requests, the bytes of a result, toLowerCase
--   and the environment.
--   Proofs: Retries.
--
-- Instants are numbers of milliseconds and a stored JSON text is the value that it denotes. What a
-- call takes from the clock and the random generator is an argument (Env, GeoEnv and their like). The order of a
-- query that states none is the table's; ilike and the order of pages are parameters, and one
-- order serves all pages of a list, though getProposals orders by updatedAt alone and rows of one
-- instant may change places between its pages. Transactions
-- are atomic, and of two on one row the second reads what the first wrote; a call other than
-- recordApplyStep reads outside its transaction.
--
-- Not modelled: the pages of the user interface, the registry and its chain calls, discovery,
-- storage, the transport of requests and errors, and how a subscription waits.
pub mod Prelude
pub mod Json
pub mod Proposals
pub mod Geography
pub mod Teams
pub mod Tenants
pub mod Dao
pub mod Attendance
pub mod Rpc
