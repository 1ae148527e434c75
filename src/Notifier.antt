-- ===== src/Notifier.antt =====
-- The notifiers under notifier/: how an entity is announced to other services.
pub mod Http
pub mod PubSub
