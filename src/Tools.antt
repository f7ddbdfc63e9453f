-- ===== src/Tools.antt =====
-- Tool calls: when two are the same, how one is resolved, and how its output is cut to size.
pub mod Json
pub mod Output
pub mod Execution
