-- ===== src/Alert.antt =====
-- internal/alert
pub mod Rule
pub mod Engine
pub mod Webhook
