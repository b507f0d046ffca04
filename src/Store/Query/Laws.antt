-- ===== src/Store/Query/Laws.antt =====
-- Laws of the queries.
mod Counts
mod Finds
mod Keys
mod Members
pub use Counts.*
pub use Finds.*
pub use Keys.*
pub use Members.*
