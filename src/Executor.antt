-- ===== src/Executor.antt =====
-- The experiment executor (internal-components/experiment-executor).
pub mod Completion
