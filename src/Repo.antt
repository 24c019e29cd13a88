-- ===== src/Repo.antt =====
-- The repository side of a run: src/lib/repo.
pub mod Branch
pub mod Context
