-- ===== src/Postman.antt =====
-- The Postman side of a run: which workspace it uses, and with which access token.
pub mod GitUrl
pub mod CreateReconciliation
pub mod Workspace
pub mod PmakDiagnostics
pub mod Token
