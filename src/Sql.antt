-- ===== src/Sql.antt =====
-- The SQL that the services send, over tables as lists of rows with a primary key and an owning
-- organization: `SELECT … WHERE id = $1 AND organization_id = $2`, `UPDATE` with the same
-- condition, `INSERT` into a table with unique columns, `COUNT(*)` and `SUM`.
mod Defs
pub mod Laws
unfoldable pub use Defs.*
