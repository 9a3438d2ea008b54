-- ===== src/PanelServer.antt =====
-- panelserver/: the native panel, its store and its HTTP handlers.
pub mod Store
pub mod Server
pub mod Access
pub mod Routes
pub mod AdminOnly
