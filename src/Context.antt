-- ===== src/Context.antt =====
-- What a run is given besides its history: packages/core/src/workspace-file-context.ts (Files) and
-- packages/core/src/external-resource-context.ts (External).
pub mod Files
pub mod External
