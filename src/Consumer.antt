-- ===== src/Consumer.antt =====
-- consumer.go: the consumer of build events.
pub mod World
pub mod Rules
pub mod Rows
pub mod Outcomes
pub mod Publishing
pub mod Handler
pub mod Delivery
pub mod Receiving
mod Samples
mod Tests
