-- ===== src/Js.antt =====
-- What the frontend's TypeScript uses of JavaScript's standard library.
pub mod All
pub mod Map
pub mod Sort
pub mod Text
