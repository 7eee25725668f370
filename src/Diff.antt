-- ===== src/Diff.antt =====
-- internal/diff/diff.go: the line diff of the review pages.
pub mod Patience
pub mod Lines
pub mod Hunks
pub mod Tests
