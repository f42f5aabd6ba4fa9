-- ===== src/Operator.antt =====
-- The operator (yass-operator).
pub mod Phase
pub mod Experiment
pub mod Webhook
pub mod Node
