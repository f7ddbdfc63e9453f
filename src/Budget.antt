-- ===== src/Budget.antt =====
-- Token budgets: how a context window is shared out, Provider usage, and the budget of one Run.
pub mod Window
pub mod Usage
pub mod Run
