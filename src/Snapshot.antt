-- ===== src/Snapshot.antt =====
-- internal/dataplane/snapshot: the signed artifacts, the index of a snapshot, the catalogs of
-- principals, and the store that serves them.
pub mod View
pub mod Principals
pub mod Catalog
pub mod Revocations
pub mod Store
pub mod Signing
