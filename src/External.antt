-- ===== src/External.antt =====
-- What the program calls and does not implement, as interfaces: the operations that it uses and
-- the documented behaviour that it relies on. Each has an instance that meets it.
pub mod SortedSets
pub mod Streams
