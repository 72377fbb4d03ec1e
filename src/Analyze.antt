-- ===== src/Analyze.antt =====
-- boundary/analyze.py: the boundary analysis.
pub mod Meta
pub mod Inflect
pub mod Sidecar
pub mod Redirect
pub mod Linkage
pub mod Classes
pub mod Resolve
pub mod Vmlinux
pub mod Structs
pub mod Emit
pub mod Main
pub mod Output
