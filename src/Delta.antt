-- ===== src/Delta.antt =====
-- src/delta.c: the editor that turns the differences between revisions into dump nodes.
pub mod CopyFrom
pub mod Node
pub mod Forest
pub mod Copies
pub mod Print
pub mod Record
pub mod Changes
pub mod Callbacks
pub mod Close
