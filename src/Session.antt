-- ===== src/Session.antt =====
-- Who is logged in, and the pages around it.
pub mod Auth
pub mod Login
pub mod Register
pub mod Navigation
