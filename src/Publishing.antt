-- ===== src/Publishing.antt =====
-- The publishing pipeline: backend/internal/publishing/orchestrator.go with the rows of
-- backend/internal/publishing/repository.go, for one work item.
pub mod Text
pub mod Rows
pub mod Git
pub mod Steps
pub mod Push
pub mod Run
pub mod Progress
pub mod Pushing
pub mod Ending
pub mod Gaps
pub mod Secrets
pub mod Branches
