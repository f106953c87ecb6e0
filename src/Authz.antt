-- ===== src/Authz.antt =====
-- internal/platform/authz: scopes, roles and the built-in decision engine.
pub mod Scope
pub mod Roles
pub mod Catalog
pub mod Engine
