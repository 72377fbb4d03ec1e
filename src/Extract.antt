-- ===== src/Extract.antt =====
-- boundary/extract.py: the editing of one source file by the decisions of the analysis.
pub mod Locate
pub mod Lines
pub mod Functions
pub mod Vars
pub mod Paths
pub mod Fixes
pub mod Preserved
