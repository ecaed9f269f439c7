-- ===== src/Queue.antt =====
-- fraudlatch/queue: the retry policy, the retry handler and the Redis stream adapter.
pub mod Retry
pub mod Ports
pub mod RedisStreams
