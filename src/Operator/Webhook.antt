-- ===== src/Operator/Webhook.antt =====
-- The admission of resources (yass-operator/internal/webhook/v1).
pub mod Layouts
pub mod Namespaces
