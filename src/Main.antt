-- ===== src/Main.antt =====
-- src/main.c: the command line.
pub mod Range
pub mod Arguments
