-- ===== src/Statement.antt =====
-- lib/connection/statement.js: the options, the requests and the completion of a statement.
pub mod Checks
pub mod Types
pub mod Options
pub mod Context
pub mod Accepted
pub mod Binds
pub mod Rows
pub mod Completion
pub mod Once
pub mod Lost
pub mod Multi
pub mod Fetch
mod Examples
