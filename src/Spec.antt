-- ===== src/Spec.antt =====
-- The specification side of a run: definition bundles, their synchronisation, and safe downloads.
pub mod Bundle
pub mod Fetch
pub mod Delta
pub mod Reconcile
mod Tests
