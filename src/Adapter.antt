-- ===== src/Adapter.antt =====
-- internal/adapter: files behind the ports of the packages.
pub mod ShadowHistory
