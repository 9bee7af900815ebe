-- ===== src/Executor.antt =====
-- executor/: the connections of a host, the tasks named meta, and the run of plays.
pub mod Connections
pub mod World
pub mod Meta
pub mod Plays
