-- ===== src/Supervisor.antt =====
-- internal/supervisor: the processes that the core manages.
pub mod Ring
pub mod Process
