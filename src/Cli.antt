-- ===== src/Cli.antt =====
-- cli.py: what the command decides itself, before it calls other programs.
pub mod Config
pub mod Version
