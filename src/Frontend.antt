-- ===== src/Frontend.antt =====
-- frontend/src: the parts of the user interface that keep a state or compute.
mod CursorPaging
mod HashSeed
mod ApiClient
pub mod Visits
pub mod HashPick
pub mod SingleRefresh
mod Tests
unfoldable pub use CursorPaging.*
unfoldable pub use HashSeed.*
unfoldable pub use ApiClient.*
