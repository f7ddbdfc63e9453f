-- ===== src/History/Kept/Whole.antt =====
-- `pruneModelHistory` from its guards to its result.
