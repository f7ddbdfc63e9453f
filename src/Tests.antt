-- ===== src/Tests.antt =====
-- Runs of the modelled code on concrete inputs, and instances of the theorems about it.
mod SessionTests
mod AgentTests
mod BudgetTests
mod HistoryTests
mod ToolsTests
mod TokenTests
mod RetentionTests
mod RetryTests
mod ApprovalTests
mod ServiceTests
mod ContextTests
mod ExternalTests
mod EditTests
mod FileTests
