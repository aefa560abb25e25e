-- ===== src/Publisher.antt =====
-- rabbit_publisher.go: publishing with confirms, and the buffer of returned messages.
pub mod Channel
pub mod Publish
pub mod Attribution
mod Tests
