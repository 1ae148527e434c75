-- ===== src/Security.antt =====
-- The bricks under security/.
pub mod Jwks
pub mod Keyed
pub mod KeyProvider
pub mod JwtAuth
pub mod OpenId
