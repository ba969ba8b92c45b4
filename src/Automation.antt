-- ===== src/Automation.antt =====
-- The tools that let an agent work on the repository: tools/automation. A run is approved and judged
-- by the runner, and its effects are recorded by a journal.
pub mod Runner
pub mod Verdict
pub mod Journal
pub mod Once
pub mod Limits
mod Tests
