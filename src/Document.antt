-- ===== src/Document.antt =====
-- Prov-JSON documents: the last part of cpl-standalone/cpl-standalone.cpp.
pub mod Tokens
pub mod Json
pub mod Table
pub mod Graph
pub mod Validate
pub mod Import
pub mod Export
