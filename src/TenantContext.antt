-- ===== src/TenantContext.antt =====
-- backend/libs/tenant-context/src: the signed context with which the gateway calls the services.
mod Hex
mod Signer
mod Middleware
mod HttpClient
pub mod HexDecoding
pub mod Signature
pub mod Admission
pub mod ToySigning
mod Tests
pub use Hex.*
unfoldable pub use Signer.*
unfoldable pub use Middleware.*
unfoldable pub use HttpClient.*
