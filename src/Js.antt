-- ===== src/Js.antt =====
-- What the source uses of JavaScript's own strings and JSON values.
pub mod Text
pub mod Json
pub mod Result
