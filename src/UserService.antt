-- ===== src/UserService.antt =====
-- backend/apps/user-service/src: members, invitations and the seats that they hold.
mod Tables
mod Repositories
mod Users
mod Provisioning
mod Lists
mod UsersRead
pub mod Reading
mod Sweep
pub mod SeatCount
pub mod Preservation
mod Tests
pub mod Requests
pub mod Outcomes
pub mod LastAdmin
pub mod SweepEffect
pub mod History
pub mod Isolation
pub mod Keys
pub use Tables.*
unfoldable pub use Repositories.*
unfoldable pub use Users.*
unfoldable pub use Provisioning.*
unfoldable pub use Sweep.*
unfoldable pub use Lists.*
unfoldable pub use UsersRead.*
