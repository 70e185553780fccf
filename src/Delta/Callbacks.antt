-- ===== src/Delta/Callbacks.antt =====
-- The callbacks of the delta editor in src/delta.c, but for de_close_edit(). A baton of a directory
-- or a file is the address of its node. The session changes where names are obfuscated.
pub mod Arranged
pub mod InOrder
pub mod Reached
use rsvndump.Base.{
  ℕ, Text, true, if◌then◌else◌, Option, none, some, List, [], ◌∷◌, codes, ◌>>=◌, Status, success,
  failure,
}
use rsvndump.Apr.{AprHash}
use rsvndump.Critbit.{Critbit}
use rsvndump.Snappy.{Snappy}
use rsvndump.Svn.{SvnCalls}
use rsvndump.Files.{Files}
use rsvndump.Rhash.{Entry, rhash_set, rhash_get, rhash_this}
use rsvndump.Ra.{NodeKind, node_file, node_dir}
use rsvndump.Log.{ChangedPath}
use rsvndump.Session.{Obfuscation, session_obfuscate}
use rsvndump.PathRepo.Edit.{path_repo_add, path_repo_delete}
use rsvndump.Property.Store.{Md5, property_load, property_store, property_delete}
use rsvndump.Delta.Node.{
  Garbage, Node, Editor, node_at, put_node, node_below, delta_create_node,
  delta_create_node_no_parent, node_no_parent,
}
use rsvndump.Delta.Record.{make_temp, read_old, remove_file}
use rsvndump.Delta.Changes.{
  lies_below, forget_sums, directory_by_log, file_by_log, deleted_entry, opened, change_prop,
}

module _ ⦃apr : AprHash⦄ ⦃cb : Critbit⦄ ⦃obf : Obfuscation⦄ ⦃files : Files⦄ where
  -- session_obfuscate() of a path that is not NULL
  unfoldable pub obfuscated : Text → Editor → Text × Editor
  obfuscated path ed =
      let (name, session) = session_obfuscate ed.session (some path) in
      (elim name as (λ _. Text) [ none ↦ path | some p ↦ p ], record ed { session = session })

  -- delta_create_node(), and what its callers set in the node. A parent that is not there counts as
  -- an error.
  unfoldable pub add_node : Garbage → Text → ℕ → (Node → Node) → Editor → Option (ℕ × Editor)
  unfolding delta_create_node
  add_node junk path a f ed = node_at ed a >>= λ parent.
      let (c, ed') = delta_create_node junk path a parent ed in
      some (c, put_node ed' c (f (node_below junk path a parent)))

  unfoldable pub de_open_root : Garbage → Editor → ℕ × Editor
  unfolding delta_create_node_no_parent
  de_open_root junk ed =
      let (a, ed') = delta_create_node_no_parent junk (codes "/") ed in
      let root = record (node_no_parent junk (codes "/")) { action = b'M' } in
      (a, record (put_node ed' a root) { root_node = some a })

  -- the body of the loop of de_delete_entry() over delta_hash
  unfoldable pub forget_file : Garbage → Text × Entry Text → Editor → Editor
  unfolding remove_file
  forget_file junk hi ed =
      let (npath, filename) = rhash_this hi (some junk.filename) in
      let (s, store) = property_delete ed.prop_store npath in
      record ed {
        fs = remove_file ed.fs filename;
        prop_store = store;
        hashes = record ed.hashes { delta_hash = rhash_set ed.hashes.delta_hash npath none };
      }

  unfoldable pub forget_files : Garbage → Text → List (Text × Entry Text) → Editor → Editor
  unfolding forget_file lies_below
  forget_files junk path [] ed = ed
  forget_files junk path (hi ∷ l) ed =
      if lies_below path hi.0
      then forget_files junk path l (forget_file junk hi ed)
      else forget_files junk path l ed

  -- the data of the path and of everything below it
  unfoldable pub forget_data : Garbage → Text → Editor → Editor
  unfolding forget_files forget_sums
  forget_data junk path ed =
      let ed1 = forget_files junk path (apr.entries ed.hashes.delta_hash) ed in
      let sums = ed1.hashes.md5_hash in
      let (s, store) = property_delete ed1.prop_store path in
      record ed1 {
        hashes = record ed1.hashes { md5_hash = forget_sums path (apr.entries sums) sums };
        prop_store = store;
      }

  -- path_repo_delete() and path_repo_add(), but for a dry run
  unfoldable pub schedule_delete : Text → Editor → Status × Editor
  schedule_delete path ed =
      let (s, repo) = path_repo_delete ed.path_repo path in
      if ed.opts.flags.initial_dry_run then (success, ed) else (s, record ed { path_repo = repo })

  unfoldable pub schedule_add : Text → Editor → Status × Editor
  schedule_add path ed =
      let (s, repo) = path_repo_add ed.path_repo path in
      if ed.opts.flags.initial_dry_run then (success, ed) else (s, record ed { path_repo = repo })

  unfoldable pub de_delete_entry : Garbage → Text → ℕ → Editor → Status × Editor
  unfolding obfuscated add_node forget_data schedule_delete deleted_entry
  de_delete_entry junk path a ed =
      let (path', ed1) = obfuscated path ed in
      elim (add_node junk path' a deleted_entry ed1) [
        | none ↦ (failure, ed1)
        | some (c, ed2) ↦ schedule_delete path' (forget_data junk path' ed2)
      ]

  -- the new node, by its log entry
  unfoldable pub add_logged :
      (Option ChangedPath → Node → Node)
      → Garbage
      → Text
      → ℕ
      → Editor
      → Option (apr.Hash ChangedPath)
      → Option (ℕ × Editor)
  unfolding add_node
  add_logged f junk path a ed none = none
  add_logged f junk path a ed (some changed) = add_node junk path a (f (apr.get changed path)) ed

  unfoldable pub finish_add : Text → Editor → Option (ℕ × Editor) → Status × Option ℕ × Editor
  unfolding schedule_add
  finish_add path ed none = (failure, none, ed)
  finish_add path ed (some (c, ed')) = let (s, ed'') = schedule_add path ed' in (s, some c, ed'')

  -- de_add_directory() and de_add_file() by `f`, with the address of the new node. No list of
  -- changed paths counts as an error.
  unfoldable pub add_child :
      (Option ChangedPath → Node → Node) → Garbage → Text → ℕ → Editor → Status × Option ℕ × Editor
  unfolding obfuscated add_logged finish_add
  add_child f junk path a ed =
      let (path', ed1) = obfuscated path ed in
      finish_add path' ed1 (add_logged f junk path' a ed1 ed1.log_revision.changed_paths)

  unfoldable pub de_add_directory : Garbage → Text → ℕ → Editor → Status × Option ℕ × Editor
  unfolding add_child directory_by_log
  de_add_directory junk path a ed = add_child directory_by_log junk path a ed

  unfoldable pub de_add_file : Garbage → Text → ℕ → Editor → Status × Option ℕ × Editor
  unfolding add_child file_by_log
  de_add_file junk path a ed = add_child file_by_log junk path a ed

  -- the node at the address is changed, where it is there
  unfoldable pub change_node : ℕ → (Node → Node) → Editor → Status × Editor
  change_node a f ed = elim (node_at ed a) [
    | none ↦ (failure, ed)
    | some n ↦ (success, put_node ed a (f n))
  ]

  unfoldable pub de_change_dir_prop :
      ⦃svn : SvnCalls⦄ → ℕ → Text → Option Text → Editor → Status × Editor
  unfolding change_node change_prop
  de_change_dir_prop ⦃svn⦄ a name value ed =
      if svn.regular name then change_node a (change_prop name value) ed else (success, ed)

  unfoldable pub de_change_file_prop :
      ⦃svn : SvnCalls⦄ → ℕ → Text → Option Text → Editor → Status × Editor
  unfolding change_node change_prop
  de_change_file_prop ⦃svn⦄ a name value ed =
      if svn.regular name then change_node a (change_prop name value) ed else (success, ed)

  -- de_absent_directory() and de_absent_file()
  unfoldable pub de_absent_entry : Text → Editor → Status × Editor
  unfolding obfuscated
  de_absent_entry path ed = (success, (obfuscated path ed).1)

  -- the fields that are set in the end
  unfoldable pub delta_applied : Text → Option Text → Node → Node
  delta_applied name old n = record n {
    filename = some name;
    old_filename = old;
    applied_delta = true;
    dump_needed = true;
  }

  -- de_apply_textdelta() up to the call of svn_txdelta_apply() and after it: what the source
  -- holds, the name of the new file, and the editor.
  unfoldable pub de_apply_textdelta : ⦃svn : SvnCalls⦄ → ℕ → Editor → Option (Text × Text × Editor)
  unfolding make_temp read_old delta_applied
  de_apply_textdelta a ed = node_at ed a >>= λ n. make_temp ed (codes "/td/XXXXXX") >>= λ temp.
      let old = rhash_get ed.hashes.delta_hash n.path in
      read_old temp.1 old >>= λ source.
      let hash = rhash_set ed.hashes.delta_hash n.path (some temp.0) in
      some (
        source,
        temp.0,
        record (put_node ed a (delta_applied temp.0 old n)) {
          fs = temp.1;
          hashes = record ed.hashes { delta_hash = hash };
        },
      )

  -- The handler is given the windows: the file is written, and the sum goes to the node.
  unfoldable pub run_handler : ℕ → files.Windows → Text × Text × Editor → Status × Editor
  run_handler a windows (source, name, ed) = elim (files.patch source windows) [
    | none ↦ (failure, ed)
    | some (target, sum) ↦ elim (node_at ed a) [
      | none ↦ (failure, ed)
      | some n ↦ (
        success,
        record (put_node ed a (record n { md5sum = sum })) { fs = files.write ed.fs name target },
      )
    ]
  ]

  unfoldable pub apply_windows : ⦃svn : SvnCalls⦄ → ℕ → files.Windows → Editor → Status × Editor
  unfolding de_apply_textdelta run_handler
  apply_windows a windows ed = elim (de_apply_textdelta a ed) [
    | none ↦ (failure, ed)
    | some begun ↦ run_handler a windows begun
  ]

module _ ⦃apr : AprHash⦄ ⦃cb : Critbit⦄ ⦃sn : Snappy⦄ ⦃obf : Obfuscation⦄ ⦃files : Files⦄ where
  -- "Load properties (if any)" of the node at address `c`
  unfoldable pub load_properties : ℕ → Editor → Status × Editor
  load_properties c ed = elim (node_at ed c) [
    | none ↦ (failure, ed)
    | some n ↦
        let (s, props, store) = property_load ed.prop_store n.path n.properties in
        (s, record (put_node ed c (record n { properties = props })) { prop_store = store })
  ]

  unfoldable pub finish_open : Editor → Option (ℕ × Editor) → Status × Option ℕ × Editor
  unfolding load_properties
  finish_open ed none = (failure, none, ed)
  finish_open ed (some (c, ed')) = let (s, ed'') = load_properties c ed' in (s, some c, ed'')

  -- de_open_directory() and de_open_file() by the kind
  unfoldable pub open_child : NodeKind → Garbage → Text → ℕ → Editor → Status × Option ℕ × Editor
  unfolding obfuscated add_node opened finish_open
  open_child kind junk path a ed =
      let (path', ed1) = obfuscated path ed in
      finish_open ed1 (add_node junk path' a (opened kind) ed1)

  unfoldable pub de_open_directory : Garbage → Text → ℕ → Editor → Status × Option ℕ × Editor
  unfolding open_child
  de_open_directory junk path a ed = open_child node_dir junk path a ed

  unfoldable pub de_open_file : Garbage → Text → ℕ → Editor → Status × Option ℕ × Editor
  unfolding open_child
  de_open_file junk path a ed = open_child node_file junk path a ed

  -- "Save properties for next time": de_close_directory() and de_close_file()
  unfoldable pub close_child : ⦃md : Md5⦄ → ℕ → Editor → Status × Editor
  close_child a ed = elim (node_at ed a) [
    | none ↦ (failure, ed)
    | some n ↦
        let (s, store) = property_store ed.prop_store n.path n.properties in
        (s, record ed { prop_store = store })
  ]

  unfoldable pub de_close_directory : ⦃md : Md5⦄ → ℕ → Editor → Status × Editor
  unfolding close_child
  de_close_directory a ed = close_child a ed

  unfoldable pub de_close_file : ⦃md : Md5⦄ → ℕ → Editor → Status × Editor
  unfolding close_child
  de_close_file a ed = close_child a ed
