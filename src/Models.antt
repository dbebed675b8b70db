-- ===== src/Models.antt =====
-- The tables that the modelled code reads and writes (apps/api/src/lemon_ledger/models), and the
-- session that holds them.
mod Enums
mod Tables
mod BridgeTables
mod RawTables
mod State
unfoldable pub use Enums.*
pub use Tables.*
pub use BridgeTables.*
pub use RawTables.*
unfoldable pub use State.*
