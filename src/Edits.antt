-- ===== src/Edits.antt =====
-- Changes that a tool proposes: packages/core/src/text-edit.ts (Plan) and
-- packages/core/src/workspace-edit.ts (Workspace), and the paths that they are for,
-- packages/core/src/workspace-path.ts (WorkspacePath).
pub mod Plan
pub mod WorkspacePath
pub mod Workspace
pub mod Files
