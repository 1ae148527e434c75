-- ===== src/Repo.antt =====
-- The repositories under repo/.
pub mod InMemory
pub mod Stored
pub mod Redis
pub mod CloudStorage
pub mod Postgres
