-- ===== src/Models.antt =====
-- internal/models: the rows of the tables. A database id is a natural number, a date column the
-- number of its day since the year 0, a timestamp the nanoseconds since 1970, both in UTC. A
-- `float64` and a `float32` are only copied, so they are held as their bit patterns. A nullable
-- column is an `Option`. Associations that a query preloads are separate values.
mod Rows
mod Keys
mod RvType
mod Tests
pub use Rows.*
pub use Keys.*
unfoldable pub use RvType.*
