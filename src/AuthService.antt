-- ===== src/AuthService.antt =====
-- backend/apps/auth-service/src: credentials, login and refresh tokens.
mod Tables
mod Repositories
mod Tokens
mod Auth
pub mod Login
pub mod Rotation
pub mod Interleaving
mod Tests
pub use Tables.*
unfoldable pub use Repositories.*
unfoldable pub use Tokens.*
unfoldable pub use Auth.*
