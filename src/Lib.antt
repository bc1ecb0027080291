-- ===== src/Lib.antt =====
-- KetJS, its durable state and its composition contracts. The program composes modules into a
-- manifest, compares manifests at an upgrade, and keeps its run-time state in tables that several
-- processes share.
--
-- Common: Boolean tests, lists, maps with string keys, stable sorting and template literals,
-- shared by all. Manifest: the part of the composed manifest (packages/ketjs/src/types.ts) that
-- the other parts read, records of entries as lists of pairs.
--
-- Queue (packages/ketjs/src/server/queue.ts): the table ket_job is a list of rows and each SQL
-- statement of the file is a function on it, written from the text of the statement: insert_row
-- with the primary key and the partial unique index, update_row with its WHERE and SET clauses.
-- Queue.Operations has enqueue (with other connections between its statements), retryExecuting,
-- discardExecuting, heartbeat, complete, cancel, retryNow, release and prune; Queue.Claim has
-- claimBatch on both databases and rescue. Queue.Steps is the step relation of the writing
-- statements, so that a sequence of steps is any interleaving of connections. claim_postgres
-- takes the ids of the rows that other transactions have locked, which SKIP LOCKED passes over.
-- The text order of ids is a parameter, one for both databases, and so is the id that nextJobId
-- draws.
--
-- RateLimit (packages/ketjs/src/server/ratelimit.ts): a counter row, its read and its
-- compare-and-set, with other replicas between the two. claim_loop makes 8 rounds, as the code
-- does. Idempotency (packages/ketjs/src/server/idem.ts): claim, read, complete, release and sweep
-- on a keyed table. The three statements of claim are one step there: the statements of other
-- connections come before or after it.
--
-- Graph (packages/ketjs/src/kernel/graph.ts): topoSort as a walk with marks and an explicit
-- stack. Its fuel bounds the depth of the calls, and is one more than the number of modules,
-- which Graph.Total proves enough. The two string orders are parameters.
--
-- Diff (packages/ketjs/src/kernel/diff.ts): diffManifests, one function for each of its loops,
-- with the codes, messages and hints that it pushes, and the stable sort by severity.
--
-- Agent (packages/ketjs/src/agent/permissions.ts): Agent.Reach is reachOf, with one function for
-- a round of each of its loops over the map of models, and Agent.Inventory is functionsOf and
-- permissionInventory. Agent.Keyed and Agent.Union prove what a reach says. The orders of sort
-- and localeCompare are parameters.
--
-- Menu (packages/ketjs/src/kernel/menu.ts): Menu.Groups is regrouped and Menu.Build is buildMenu.
-- A list of nodes is one data type, a node with its children and the nodes after it. The number
-- of levels stands for the depth: build starts with 9 and gives nothing at 0, as the code gives
-- nothing at a depth of more than 8. The translation is an option, as in the code; localeCompare,
-- toLocaleLowerCase, trim and includes on texts are parameters, and sequences are natural
-- numbers.
--
-- Semver (packages/ketjs/src/kernel/semver.ts): compareVersions and satisfies, on what the
-- regular expressions capture; a comparison's number is kept by its sign.
--
-- Routes (packages/ketjs/src/kernel/routes.ts): Routes.Text and Routes.Compile are
-- parseRoutePattern, ambiguousRoutes, matchRoutePattern and compileRoutes; an error that the code
-- throws is a value of RouteError. decodeURIComponent and localeCompare are parameters.
--
-- Sequence (packages/ketjs/src/server/sequence.ts): nextSequenceNumber as a read, an insert or a
-- compare-and-set of a row, in at most 64 rounds as in the code; Sequence.Steps lets the callers
-- interleave. The waiting between two rounds changes nothing.
--
-- Session (packages/ketjs/src/server/sessionstore.ts): Session.Store is the interface of a
-- session store with the laws that both keep; Session.Memory is the map of
-- createMemorySessionStore and Session.Database the statements of createDatabaseSessionStore on a
-- table. The ids of new sessions are new, as they are drawn at random; the JSON text of a list is
-- the list, and no other connection comes between the UPDATE and the SELECT of updateContext.
--
-- Types (packages/ketjs/src/kernel/types.ts): parseType and the names of a type in TypeScript and
-- SQL, over the code points of a text, and Types.Dates is isDateText. Classification
-- (packages/ketjs/src/kernel/classification.ts): the inventory of personal and sensitive fields
-- and its printed form.
--
-- Layout (packages/ketjs/src/kernel/layout.ts): a page layout is a tree of placements, with a
-- data type for a list of them and one for the slots of one. Layout.Validate is validateLayout
-- with the sections of the manifest, Layout.Identity gives ids, and Layout.Changes is
-- diffPlacements. JSON.stringify of a text, the order of texts and the digest are parameters. The
-- lookups of sections, settings and slots also find what every JavaScript object inherits, as in
-- the code; a slot named __proto__ in withPlacementIds is left out. In the other parts a record
-- has the keys that it lists.
--
-- Pool (packages/ketjs/src/data/pool.ts): the adapter pool. Pool.Operations has one function for
-- each stretch of acquire, release, evictIdle and close between two awaits, and Pool.Steps lets
-- the stretches of all callers interleave; the admission lock is a state of the pool that says
-- what its holder waits for.
--
-- Schedule (packages/ketjs/src/kernel/schedule.ts, with dateBucket of a day and
-- localDateTimeToUtc of packages/ketjs/src/data/time.ts): intervals and times of day, read from
-- their code points, the conversion of a wall time in three corrections, and the ticks of a
-- schedule. The clock of a time zone, which Intl has, is a parameter, and none for a name that is
-- no time zone.
--
-- Instants are numbers of milliseconds, so ISO text and Date.parse do not appear; whole numbers
-- stand for the counters and priorities, so the checks for fractional or missing numbers do not
-- appear. Not modelled: notifications, hashing and random ids, table creation and migration, the
-- HTTP server, the view runtime, themes and reports.
pub mod Common
pub mod Pool
pub mod Queue
pub mod Manifest
pub mod Diff
pub mod RateLimit
pub mod Idempotency
pub mod Sequence
pub mod Routes
pub mod Session
pub mod Types
pub mod Classification
pub mod Layout
pub mod Graph
pub mod Agent
pub mod Menu
pub mod Schedule
pub mod Semver
