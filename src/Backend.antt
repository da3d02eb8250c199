-- ===== src/Backend.antt =====
-- The backend's own logic, in Go, of backend/internal: the routes and who may use them, the accounts, the
-- cache of readings, and the way of a message of a device.
pub mod Routes
pub mod Access
pub mod Accounts
pub mod ReadingsCache
pub mod Dedup
pub mod Fields
pub mod Message
pub mod Devices
pub mod Renames
