-- ===== src/Pipeline/Patch.antt =====
-- internal/dataplane/pipeline/patch.go: RFC 6902 patches, confined to a plugin's declared writes.
-- A parent that the source mutates in place is written back at its path by `put_parts`.
pub mod Pointer
pub mod Document
pub mod Apply
