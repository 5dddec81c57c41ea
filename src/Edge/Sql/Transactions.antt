-- ===== src/Edge/Sql/Transactions.antt =====
-- What the calls of edge_server/src/database/sqlite_db.cpp do under any schedule of failures.
mod Steps
mod Reads
mod Ready
unfoldable pub use Steps.*
unfoldable pub use Reads.*
pub use Ready.*
