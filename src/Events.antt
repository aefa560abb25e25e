-- ===== src/Events.antt =====
-- events.go: the events that the service publishes. `digest` is hex(SHA-256(…)), and `now` the time
-- that the constructor reads from the clock, in the format of encoding/json.
pub mod Types
pub mod Build
pub mod Wire
pub mod Stored
