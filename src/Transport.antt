-- ===== src/Transport.antt =====
-- src/server/transport/websocket-server.ts and src/server/fanout/redis-pubsub.ts: what a worker does
-- with the messages of its sockets and with those that Redis hands to it.
pub mod Presence
pub mod MessageQueue
pub mod QueueOrder
pub mod Fanout
pub mod Visits
pub mod Join
pub mod Admission
pub mod Gate
pub mod Lifecycle
pub mod Tests
