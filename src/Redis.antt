-- ===== src/Redis.antt =====
-- backend/libs/redis: what the services keep in Redis. A text is the list of its character codes.
mod Client
mod Throttling
mod Denylist
pub mod Laws
pub mod Hits
mod Tests
pub use Client.*
unfoldable pub use Throttling.*
unfoldable pub use Denylist.*
