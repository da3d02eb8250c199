-- ===== src/Settings.antt =====
-- frontend/src/components/device-settings-modal.tsx: the settings of a device.
pub mod Context
pub mod Modal
pub mod Card
pub mod GroupsTab
pub mod ExportTab
