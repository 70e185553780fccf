-- ===== src/Delta/Changes.antt =====
-- What the callbacks of the delta editor in src/delta.c do to a node and to the table of checksums.
use rsvndump.Base.{
  Text, starts_with, Bool, true, false, ◌&&◌, ◌==◌, if◌then◌else◌, Option, none, some, List, [],
  ◌∷◌, length, drop,
}
use rsvndump.Apr.{AprHash}
use rsvndump.Rhash.{Rhash, Entry, rhash_set}
use rsvndump.Ra.{NodeKind, node_file, node_dir, node_other}
use rsvndump.Log.{ChangedPath}
use rsvndump.Delta.Node.{Node, failed, cpi_none}

-- npath begins with the path, and a slash follows
unfoldable pub lies_below : Text → Text → Bool
lies_below path npath =
    starts_with path npath && (elim (drop (length path) npath) [ [] ↦ false | c ∷ s ↦ c == b'/' ])

module _ ⦃apr : AprHash⦄ where
  -- the loop of de_delete_entry() over md5_hash
  unfoldable pub forget_sums : Text → List (Text × Entry Text) → Rhash Text → Rhash Text
  unfolding lies_below
  forget_sums path [] sums = sums
  forget_sums path ((npath, e) ∷ l) sums =
      if lies_below path npath
      then forget_sums path l (rhash_set sums npath none)
      else forget_sums path l sums

  -- What de_add_directory() and de_add_file() take from the log entry.
  unfoldable pub take_log : Option ChangedPath → Node → Node
  unfolding failed
  take_log none n = record n { action = b'A' }
  take_log (some log) n =
      let n' = record n {
        action = log.action;
        cp_info = if failed n.cp_info then n.cp_info else cpi_none;
      } in
      elim log.copyfrom_path [
        | none ↦ n'
        | some path ↦ record n' { copyfrom_path = some path; copyfrom_revision = log.copyfrom_rev }
      ]

  unfoldable pub directory_by_log : Option ChangedPath → Node → Node
  unfolding take_log
  directory_by_log log n = take_log log (record n { kind = node_dir; dump_needed = true })

  -- "If the node is part of a tree that is dumped instead of being copied"
  unfoldable pub file_by_log : Option ChangedPath → Node → Node
  unfolding take_log failed
  file_by_log log n =
      let n' = take_log log (record n { kind = node_file; dump_needed = true }) in
      if failed n'.cp_info then record n' { action = b'A' } else n'

  unfoldable pub deleted_entry : Node → Node
  deleted_entry n = record n { kind = node_other; action = b'D'; dump_needed = true }

  unfoldable pub opened : NodeKind → Node → Node
  opened kind n = record n { kind = kind; action = b'M' }

  -- a regular property of a node gets a value, or none
  unfoldable pub change_prop : Text → Option Text → Node → Node
  change_prop name (some value) n = record n {
    properties = apr.put n.properties name (some value);
    props_changed = true;
    dump_needed = true;
  }
  change_prop name none n = record n {
    del_properties = apr.put n.del_properties name (some 1);
    props_changed = true;
    dump_needed = true;
  }
