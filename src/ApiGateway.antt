-- ===== src/ApiGateway.antt =====
-- backend/apps/api-gateway/src, and the strategy of backend/libs/auth that only it uses.
mod Jwt
mod ThrottleRoutes
mod Proxy
mod Sessions
pub mod Identity
pub mod Logout
mod Tests
unfoldable pub use Jwt.*
unfoldable pub use ThrottleRoutes.*
unfoldable pub use Proxy.*
unfoldable pub use Sessions.*
