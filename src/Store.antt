-- ===== src/Store.antt =====
-- The state that the services share, and the statements that they run on it: gorm's `Find`, `Count`,
-- `First`, `Create`, `Update(s)`, `Delete` and `Transaction`. A service method is an action: it
-- takes the state and returns an error or its result, with the state that it leaves, so what was
-- written before an error stays written unless a transaction takes it back.
mod Defs
pub mod Laws
pub mod Errors
pub mod Memory
unfoldable pub use Defs.*
