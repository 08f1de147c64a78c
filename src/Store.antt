-- ===== src/Store.antt =====
-- The trading tables of prisma/schema.prisma, the request context of src/types/auth.ts, and the
-- transactions of src/db/pool.ts.
mod Rows
mod Transactions
unfoldable pub use Rows.*
unfoldable pub use Transactions.*
