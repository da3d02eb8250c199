-- ===== src/Tests.antt =====
-- Concrete runs of the theorems.
mod Data
mod Session
mod Dashboard
mod Widgets
mod Fields
mod Charts
mod Settings
mod Pages
mod Groups
mod Forms
mod Backend
mod Messages
mod Accounts
