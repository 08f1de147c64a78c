-- ===== src/Trading.antt =====
-- The services of the trading modules together: any sequence of their calls, by any users of any
-- organization, on one database.
pub mod Calls
pub mod Links
pub mod Steps
pub mod Reach
unfoldable pub use Calls.*
