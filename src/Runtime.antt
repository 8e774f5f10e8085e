-- ===== src/Runtime.antt =====
-- The runtime library, runtime/tinyswift_runtime.c: the parts that keep a data structure.
pub mod Arc
pub mod Hashes
pub mod HashMap
pub mod HashSet
pub mod DynArray
mod Tests
