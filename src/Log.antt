-- ===== src/Log.antt =====
-- src/log.h and src/log.c: what the program keeps of the log of a revision.
pub mod Receiver
pub mod Fetch
use rsvndump.Base.{ℕ, Text, ℤ, Option}
use rsvndump.Apr.{AprHash}

-- svn_log_changed_path_t, as far as it is used
pub record ChangedPath : Type 0 where
  pub action : ℕ
  pub copyfrom_path : Option Text
  pub copyfrom_rev : ℤ

module _ ⦃apr : AprHash⦄ where
  -- log_revision_t; `none` is NULL
  pub record LogRevision : Type 0 where
    pub revision : ℤ
    pub author : Option Text
    pub date : Option Text
    pub message : Option Text
    pub changed_paths : Option (apr.Hash ChangedPath)
