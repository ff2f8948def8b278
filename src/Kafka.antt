-- ===== src/Kafka.antt =====
-- backend/libs/kafka/src: how events are published and consumed.
mod Consumer
mod PostgresStore
mod Publisher
pub mod Store
pub mod Publishing
pub mod Delivery
pub mod Attempts
pub mod Refusal
mod Tests
unfoldable pub use Consumer.*
unfoldable pub use PostgresStore.*
unfoldable pub use Publisher.*
