-- ===== src/Api.antt =====
-- The public C calls of cpl-standalone/cpl-standalone.cpp over a database backend.
pub mod Effect
pub mod Backend
pub mod Lifecycle
pub mod Objects
pub mod Relations
pub mod Access
pub mod Free
pub mod Properties
pub mod Numbers
pub mod Collect
pub mod Call
pub mod Guards
pub mod Within
pub mod Ready
pub mod History
pub mod Processes
