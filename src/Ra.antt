-- ===== src/Ra.antt =====
-- The remote access library, as far as the path repository calls it: a parameter of the model.
use rsvndump.Base.{ℕ, Text, ℤ, Option, List}

-- svn_node_kind_t of an entry
pub data NodeKind : Type 0 where
  node_file node_dir node_other : NodeKind

-- `none` is an error. svn_ra_stat() answers `some none` for a path that does not exist. Directories
-- are nested no deeper than `depth`.
pub record Ra : Type 0 where
  pub stat : Text → ℤ → Option (Option NodeKind)
  pub get_dir : Text → ℤ → Option (List (Text × NodeKind))
  pub depth : ℕ
