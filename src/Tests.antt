-- ===== src/Tests.antt =====
-- Runs of the models on a small kernel, and the theorems at concrete inputs.
mod Samples
mod Extraction
mod Collecting
mod Command
mod Releases
mod Editing
mod Classes
mod Searches
mod Symbols
