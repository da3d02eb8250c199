-- ===== src/Api.antt =====
-- frontend/src/lib/api.ts: the types, the request that each function sends and what it makes of the
-- reply.
pub mod Types
pub mod Calls
pub mod Requests
pub mod Replies
