-- ===== src/Wiring.antt =====
-- What is opened when the process starts, and closed when that fails or when the consumer is closed:
-- `NewDeployConsumer` and `Close` of consumer.go, `NewRabbitPublisher` of rabbit_publisher.go,
-- `NewPostgresStageLedger` of ledger.go; `NewKubernetesClient` of k8s_client.go (Process).
pub mod Link
pub mod Start
pub mod Process
pub mod Stack
pub mod Parts
pub mod Closing
pub mod Growing
pub mod Declared
mod Tests
