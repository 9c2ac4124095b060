-- ===== src/Odbc.antt =====
-- The ODBC backend of backends/cpl-odbc/cpl-odbc.cpp.
pub mod Statements
pub mod Driver
pub mod State
pub mod Connect
pub mod Execute
pub mod Fetch
pub mod Calls
pub mod Interface
pub mod Intact
pub mod Pool
pub mod Delivery
pub mod Create
pub mod Retry
pub mod Database
pub mod Ids
pub mod NullValue
pub mod Outs
pub mod LostLink
pub mod Cursor
