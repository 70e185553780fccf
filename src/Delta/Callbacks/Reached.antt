-- ===== src/Delta/Callbacks/Reached.antt =====
-- The states of the editor that delta_setup_editor() and the callbacks of src/delta.c lead to, in
-- whatever order and with whatever arguments they are called.
use rsvndump.Base.{ℕ, Text, ℤ, Option, Bool-cases, inl, inr}
use rsvndump.Apr.{AprHash, AprStrings}
use rsvndump.Critbit.{Critbit}
use rsvndump.Snappy.{Snappy}
use rsvndump.Svn.{DumpNames, SvnCalls}
use rsvndump.Files.{Files}
use rsvndump.Ra.{node_file, node_dir}
use rsvndump.Session.{Obfuscation}
use rsvndump.Log.{LogRevision}
use rsvndump.Property.Store.{Md5}
use rsvndump.Delta.Node.{Garbage, Hashes, Editor}
use rsvndump.Delta.Forest.{IsForest, IsForest-empty}
use rsvndump.Delta.Changes.{directory_by_log, file_by_log, change_prop}
use rsvndump.Delta.Callbacks.{
  de_open_root, de_delete_entry, de_add_directory, de_add_file, de_change_dir_prop,
  de_change_file_prop, de_absent_entry, apply_windows, de_open_directory, de_open_file,
  de_close_directory, de_close_file, obfuscated,
}
use rsvndump.Delta.Callbacks.Arranged.{
  children-directory_by_log, children-file_by_log, children-change_prop, change_node-InOrder,
  InOrder-same, nodes-obfuscated,
}
use rsvndump.Delta.Callbacks.InOrder.{
  de_open_root-InOrder, de_delete_entry-InOrder, add_child-InOrder, open_child-InOrder,
  close_child-InOrder, apply_windows-InOrder,
}
use rsvndump.Delta.Close.{EditorInfo, delta_setup_editor, delta_dump_node_recursive}
use rsvndump.Delta.Close.Fuel.{whole_node, Dumps, Dumps-delta_dump_node_recursive}

module _ ⦃names : DumpNames⦄ ⦃apr : AprHash⦄ ⦃strings : AprStrings⦄ ⦃cb : Critbit⦄ ⦃sn : Snappy⦄
    ⦃obf : Obfuscation⦄ ⦃files : Files⦄ ⦃svn : SvnCalls⦄ ⦃md : Md5⦄ where
  -- A callback may have failed, too.
  pub data Reached : Editor → Type 0 where
    set_up :
        (info : EditorInfo) (log : LogRevision) (rev : ℤ) (hashes : Hashes) (fs : files.Fs)
        → Reached (delta_setup_editor info log rev hashes fs)
    root : (junk : Garbage) (ed : Editor) → Reached ed → Reached (de_open_root junk ed).1
    deleted :
        (junk : Garbage) (path : Text) (a : ℕ) (ed : Editor)
        → Reached ed
        → Reached (de_delete_entry junk path a ed).1
    added_directory :
        (junk : Garbage) (path : Text) (a : ℕ) (ed : Editor)
        → Reached ed
        → Reached (de_add_directory junk path a ed).2
    opened_directory :
        (junk : Garbage) (path : Text) (a : ℕ) (ed : Editor)
        → Reached ed
        → Reached (de_open_directory junk path a ed).2
    changed_dir_prop :
        (a : ℕ) (name : Text) (value : Option Text) (ed : Editor)
        → Reached ed
        → Reached (de_change_dir_prop a name value ed).1
    closed_directory : (a : ℕ) (ed : Editor) → Reached ed → Reached (de_close_directory a ed).1
    absent_entry : (path : Text) (ed : Editor) → Reached ed → Reached (de_absent_entry path ed).1
    added_file :
        (junk : Garbage) (path : Text) (a : ℕ) (ed : Editor)
        → Reached ed
        → Reached (de_add_file junk path a ed).2
    opened_file :
        (junk : Garbage) (path : Text) (a : ℕ) (ed : Editor)
        → Reached ed
        → Reached (de_open_file junk path a ed).2
    applied :
        (a : ℕ) (windows : files.Windows) (ed : Editor)
        → Reached ed
        → Reached (apply_windows a windows ed).1
    changed_file_prop :
        (a : ℕ) (name : Text) (value : Option Text) (ed : Editor)
        → Reached ed
        → Reached (de_change_file_prop a name value ed).1
    closed_file : (a : ℕ) (ed : Editor) → Reached ed → Reached (de_close_file a ed).1

  change_dir_prop-IsForest :
      (a : ℕ) (name : Text) (value : Option Text) (ed : Editor)
      → IsForest ed.nodes
      → IsForest (de_change_dir_prop a name value ed).1.nodes
  unfolding de_change_dir_prop
  change_dir_prop-IsForest a name value ed i = elim (Bool-cases (svn.regular name)) [
    | inl e ↦
        rw e (change_node-InOrder ed a (change_prop name value) (children-change_prop name value) i)
    | inr e ↦ rw e i
  ]

  change_file_prop-IsForest :
      (a : ℕ) (name : Text) (value : Option Text) (ed : Editor)
      → IsForest ed.nodes
      → IsForest (de_change_file_prop a name value ed).1.nodes
  unfolding de_change_file_prop
  change_file_prop-IsForest a name value ed i = elim (Bool-cases (svn.regular name)) [
    | inl e ↦
        rw e (change_node-InOrder ed a (change_prop name value) (children-change_prop name value) i)
    | inr e ↦ rw e i
  ]

  -- In every state that the callbacks lead to, a child of a node stands after the node.
  pub Reached-IsForest : (ed : Editor) → Reached ed → IsForest ed.nodes
  unfolding de_add_directory de_open_directory de_add_file de_open_file de_close_directory
      de_close_file delta_setup_editor de_absent_entry
  Reached-IsForest ed (set_up info log rev hashes fs) = IsForest-empty
  Reached-IsForest ed (root junk e r) = de_open_root-InOrder junk e (Reached-IsForest e r)
  Reached-IsForest ed (deleted junk path a e r) =
      de_delete_entry-InOrder junk path a e (Reached-IsForest e r)
  Reached-IsForest ed (added_directory junk path a e r) =
      add_child-InOrder directory_by_log junk path a e children-directory_by_log
        (Reached-IsForest e r)
  Reached-IsForest ed (opened_directory junk path a e r) =
      open_child-InOrder node_dir junk path a e (Reached-IsForest e r)
  Reached-IsForest ed (changed_dir_prop a name value e r) =
      change_dir_prop-IsForest a name value e (Reached-IsForest e r)
  Reached-IsForest ed (closed_directory a e r) = close_child-InOrder a e (Reached-IsForest e r)
  Reached-IsForest ed (absent_entry path e r) =
      InOrder-same e (obfuscated path e).1 (nodes-obfuscated path e) (Reached-IsForest e r)
  Reached-IsForest ed (added_file junk path a e r) =
      add_child-InOrder file_by_log junk path a e children-file_by_log (Reached-IsForest e r)
  Reached-IsForest ed (opened_file junk path a e r) =
      open_child-InOrder node_file junk path a e (Reached-IsForest e r)
  Reached-IsForest ed (applied a windows e r) =
      apply_windows-InOrder a windows e (Reached-IsForest e r)
  Reached-IsForest ed (changed_file_prop a name value e r) =
      change_file_prop-IsForest a name value e (Reached-IsForest e r)
  Reached-IsForest ed (closed_file a e r) = close_child-InOrder a e (Reached-IsForest e r)

  -- In every state that the callbacks lead to, delta_dump_node_recursive() ends, whatever the node.
  -- The fuel, which is the number of nodes, does not run out: the result has a derivation that goes
  -- from the node to its children and on, is finite, and knows of no fuel; it fails only where
  -- there is no node or where a step of it fails.
  pub delta_dump_node_recursive-Dumps :
      (a : ℕ) (ed : Editor) → Reached ed → Dumps (whole_node a) ed (delta_dump_node_recursive a ed)
  delta_dump_node_recursive-Dumps a ed r =
      Dumps-delta_dump_node_recursive a ed (Reached-IsForest ed r)
