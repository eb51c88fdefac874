-- ===== src/Js.antt =====
-- What the TypeScript sources use of their language: `Map`, numbers and regular expressions.
pub mod Table
pub mod Number
pub mod Json
pub mod Pattern
pub mod Env
