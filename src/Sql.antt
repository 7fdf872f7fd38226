-- ===== src/Sql.antt =====
-- The database behind gorm, which is no code of the repository: a parameter. A `Table W Row` holds
-- the calls that the program makes on one table. A call takes the session `W` (the connection, its
-- clock, whatever makes a call fail) and the rows that the table holds, and returns an error or
-- its result, with the new session. `IsTable` is what SQL and gorm document of those calls.
mod Defs
pub mod Memory
pub use Defs.*
