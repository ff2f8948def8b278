-- ===== src/Pagination.antt =====
-- backend/libs/common/src/types/pagination.type.ts, and the keyset pages that the repositories'
-- `listPage` answer, which all have one shape.
mod Pages
pub mod Order
pub mod Following
pub mod Items
pub mod Precision
pub use Pages.*
