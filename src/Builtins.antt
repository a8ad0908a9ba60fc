-- ===== src/Builtins.antt =====
-- src/builtins.rs: the implementations of `Object` for the types of the standard library.
pub mod Pod
pub mod Scalars
pub mod Sum
pub mod Tuple
pub mod Sequence
pub mod Wrapper
pub mod Text
pub mod Time
pub mod Resource
pub mod Shape
pub mod Unordered
