-- ===== src/DevicePage.antt =====
-- frontend/src/app/dashboard/[deviceId]/page.tsx: the page of one device.
pub mod ChartGroups
pub mod State
pub mod Handlers
pub mod Chart
pub mod Markup
