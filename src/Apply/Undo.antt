-- ===== src/Apply/Undo.antt =====
-- Undoing: a component is applied, and then the inverse that operation.go makes of it.
pub mod Arrays
pub mod Objects
