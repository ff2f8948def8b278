-- ===== src/Authorization.antt =====
-- backend/libs/authorization/src: what a role may do.
mod Ability
pub mod Decisions
mod Tests
unfoldable pub use Ability.*
