-- ===== src/Cql.antt =====
-- pkg/cql: the texts of CQL statements.
pub mod Value
pub mod Prepared
pub mod Builder
pub mod Statements
pub mod Quoting
pub mod Tables
pub mod Calls
pub mod Params
