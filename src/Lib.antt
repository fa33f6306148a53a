-- ===== src/Lib.antt =====
-- A collaborative text editor: replicas of a document exchange operations, and replicas that have
-- applied the same operations are meant to show the same text.
--
-- The document is a replicated growable array (src/crdt/rga-document.ts): a linked list of characters,
-- each with an identifier (a Lamport clock and a site), of which deleted ones stay as tombstones. The
-- server keeps one replica for each document, the browser another one (src/client/crdt/client-rga.ts).
-- Operations arrive through a log that holds back what comes too early (src/crdt/operation-log.ts), are
-- stored in a table with a sequence number for each document, and a document is loaded from its latest
-- snapshot and the operations behind it (src/server/persistence). Operations without an answer wait in
-- the browser's queue (src/client/crdt/offline-queue.ts).
--
-- An editor (src/client/hooks/useCollaborativeDoc.ts) opens a socket, sends a JOIN, and is answered with
-- nodes or missed operations by the server (src/server/transport/websocket-server.ts), which looks up
-- the user's permission; permissions come from the routes for documents and invitations
-- (src/server/api/routes). An accepted operation is published through Redis and handed to the sessions
-- of its document on every worker (src/server/fanout/redis-pubsub.ts).
--
-- Files and the code that they model:
--   Op.antt, Op/              src/shared/types/operation.ts: UID, compareUID, uidKey, the operations
--   Rga.antt, Rga/            src/crdt/rga-document.ts: RGADocument, one function for each method
--   VectorClock.antt          src/crdt/vector-clock.ts, src/crdt/uid.ts and the clocks of operation.ts
--   OperationLog.antt         src/crdt/operation-log.ts: applyOrBuffer and what it calls
--   ClientRga.antt            src/client/crdt/client-rga.ts: ClientRGADocument
--   OfflineQueue.antt         src/client/crdt/offline-queue.ts: OfflineQueue and the local storage
--   HistoryManager.antt       src/crdt/history-manager.ts: the undo and redo stacks
--   Store.antt                src/server/persistence/operation-store.ts and schema.sql
--   Store/Snapshots.antt      src/server/persistence/snapshot-store.ts
--   Store/Revisions.antt      src/server/persistence/history-service.ts
--   Base.antt, Base/          numbers, lists, texts and maps that the others share
--   Server/RateLimiter.antt   src/server/sync/rate-limiter.ts
--   Server/ReplayGuard.antt   src/server/security/replay-guard.ts
--   Server/OfflineMerger.antt src/server/sync/offline-merger.ts
--   Server/Sessions.antt      src/server/transport/session-manager.ts
--   Server/DocumentCache.antt src/server/sync/document-cache.ts
--   Server/Handler.antt       src/server/sync/operation-handler.ts
--   Server/Compactor.antt     src/server/jobs/snapshot-compactor.ts
--   Documents.antt            src/server/persistence/document-store.ts and the tables of schema.sql
--   Documents/Invitations.antt
--                             src/server/persistence/invitation-store.ts
--   Documents/Notifications.antt
--                             src/server/persistence/notification-store.ts
--   Documents/Routes.antt     src/server/api/routes/documents.ts, invites.ts and src/server/api/middleware
--   Transport/Fanout.antt     src/server/fanout/redis-pubsub.ts
--   Transport/Presence.antt   src/server/sync/presence-manager.ts
--   Transport.antt, Transport/Gate.antt, MessageQueue.antt, Join.antt, Lifecycle.antt, Visits.antt
--                             src/server/transport/websocket-server.ts
--   Hook.antt, Hook/          src/client/hooks/useCollaborativeDoc.ts
--
-- How the code is read. A method that changes its object is a function from the state to the new state.
-- A thrown error is none of Option. The linked list from the root on is the list of its nodes; a node
-- is written through its key, since the index map leads from keys to nodes. Strings are lists of UTF-16
-- code units, numbers are unbounded naturals, and _length, which may fall below zero, is an integer.
-- A Map is a list of pairs or, where only membership matters, a Boolean function. PostgreSQL tables are
-- lists of rows, and a query is written out over them; identifiers and times that the database or the
-- runtime draws are arguments. SHA-256, Redis and the package lru-cache are parameters; the counters and
-- nonces of Redis do not expire within what a theorem looks at. The handler's calls run one after the
-- other, and the background snapshot is a step of its own. A transaction that fails leaves the tables
-- as they were, but for what is written outside of it, as the snapshot of a return to a revision is. A closure that is registered as a handler is known by a number, and every closure that
-- is made has a new one. The state that React keeps for a hook is a record, and each callback is a
-- function on it; a timer or a message is an event that happens in any order with others. The check of a
-- token and the presence that Redis keeps are parameters.
--
-- Fuel: the loop of flushBuffer is given one round more than the buffer is long, since each round that
-- goes on shortens it; the digits of a number are given one round more than its value.
--
-- Not modelled: process set-up, logging, connection pools, the user interface, the signing of tokens, the
-- log-in, the history, restore, notification and dashboard routes, the timers of typing indicators, and
-- the parts of the server and of the browser that no file above names.
pub mod Base
pub mod Op
pub mod Rga
pub mod VectorClock
pub mod OperationLog
pub mod ClientRga
pub mod OfflineQueue
pub mod HistoryManager
pub mod Store
pub mod Server
pub mod Documents
pub mod Transport
pub mod Hook
