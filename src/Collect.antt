-- ===== src/Collect.antt =====
-- boundary/collect.py: what the GCC plugin writes about one source file.
pub mod Gcc
pub mod Bugs
pub mod Functions
pub mod Graph
pub mod Vars
pub mod Structs
pub mod Info
