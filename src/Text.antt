-- ===== src/Text.antt =====
-- The text routines of src/utils.c and of the notify server.
pub mod Decimal
pub mod Tokens
pub mod Topic
pub mod Lines
pub mod Prefix
pub mod Query
pub mod Interval
pub mod Html
pub mod Tests
