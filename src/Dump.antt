-- ===== src/Dump.antt =====
-- src/dump.c: the records of the dump file that are not nodes, and a round of the loop over revisions.
pub mod Records
pub mod Loop
pub mod Start
pub mod Rounds
