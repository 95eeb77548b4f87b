-- ===== src/Config.antt =====
-- internal/config: what the server makes of its configuration file and of its environment. The environment
-- is a function from names to values, empty where a name is not set.
pub mod Types
pub mod Checks
pub mod Merge
pub mod Load
