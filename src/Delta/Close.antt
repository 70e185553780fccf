-- ===== src/Delta/Close.antt =====
-- delta_dump_node_recursive(), de_close_edit(), delta_setup_editor() and delta_cleanup() of
-- src/delta.c: the nodes of a revision are dumped.
pub mod Fuel
use rsvndump.Base.{
  ℕ, zero, suc, Text, ℤ, pos, eqz, Bool, true, false, not, ◌&&◌, ◌||◌, ◌==◌, if◌then◌else◌, Option,
  none, some, List, [], ◌∷◌, length, ◌>>=◌, Status, success, failure,
}
use rsvndump.Apr.{AprHash, AprStrings}
use rsvndump.Critbit.{Critbit}
use rsvndump.Snappy.{Snappy}
use rsvndump.Svn.{DumpNames, SvnCalls}
use rsvndump.Files.{Files}
use rsvndump.Rhash.{rhash_make, rhash_set, rhash_get, rhash_clear}
use rsvndump.Ra.{node_other}
use rsvndump.Log.{ChangedPath, LogRevision}
use rsvndump.Options.{DumpOptions}
use rsvndump.Session.{Obfuscation, Session}
use rsvndump.PathRepo.{PathRepo, present, absent, unknown}
use rsvndump.PathRepo.Edit.{path_repo_exists}
use rsvndump.Property.Store.{PropertyStorage}
use rsvndump.Delta.CopyFrom.{ltz}
use rsvndump.Delta.Node.{
  Garbage, Node, Hashes, Editor, node_at, put_node, node_no_parent, delta_create_node_no_parent,
  failed, is_some,
}
use rsvndump.Delta.Copies.{delta_propagate_copy}
use rsvndump.Delta.Record.{delta_dump_node, remove_file}

module _ ⦃names : DumpNames⦄ ⦃apr : AprHash⦄ ⦃strings : AprStrings⦄ ⦃cb : Critbit⦄ ⦃sn : Snappy⦄
    ⦃obf : Obfuscation⦄ ⦃files : Files⦄ ⦃svn : SvnCalls⦄ where
  -- A node that is changed goes back to its address; a dangling address counts as an error.
  unfoldable pub dump_at : ℕ → Editor → Status × Editor
  unfolding delta_dump_node
  dump_at a ed = elim (node_at ed a) [
    | none ↦ (failure, ed)
    | some n ↦ let (s, n', ed') = delta_dump_node a ed n in (s, put_node ed' a n')
  ]

  unfoldable pub propagate_at : ℕ → ℕ → Editor → Status × Editor
  unfolding delta_propagate_copy
  propagate_at a c ed = elim (node_at ed a) [
    | none ↦ (failure, ed)
    | some p ↦ elim (node_at ed c) [
      | none ↦ (failure, ed)
      | some n ↦ let (s, n', ed') = delta_propagate_copy ed p n in (s, put_node ed' c n')
    ]
  ]

  -- The loop over the children of the node at `a`; `step` is delta_dump_node_recursive().
  unfoldable pub dump_children :
      (ℕ → Editor → Status × Editor) → ℕ → List ℕ → Editor → Status × Editor
  unfolding propagate_at
  dump_children step a [] ed = (success, ed)
  dump_children step a (c ∷ cs) ed =
      let (s1, ed1) = propagate_at a c ed in
      elim s1 [
        | failure ↦ (failure, ed1)
        | success ↦
            let (s2, ed2) = step c ed1 in
            elim s2 [ failure ↦ (failure, ed2) | success ↦ dump_children step a cs ed2 ]
      ]

  -- the parts of delta_dump_node_recursive(): before the children, and after them
  unfoldable pub dump_before : ℕ → Node → Editor → Status × Editor
  unfolding dump_at
  dump_before a n ed = if n.action == b'D' then (success, ed) else dump_at a ed

  unfoldable pub dump_after : ℕ → Editor → Status × Editor
  unfolding dump_at
  dump_after a ed = elim (node_at ed a) [
    | none ↦ (failure, ed)
    | some n ↦ if n.action == b'D' then dump_at a ed else (success, ed)
  ]

  -- The fuel bounds how deep the nodes are nested.
  unfoldable pub dump_recursive : ℕ → ℕ → Editor → Status × Editor
  unfolding dump_children dump_before dump_after
  dump_recursive zero a ed = (failure, ed)
  dump_recursive (suc fuel) a ed = elim (node_at ed a) [
    | none ↦ (failure, ed)
    | some n ↦
        let (s1, ed1) = dump_before a n ed in
        elim s1 [
          | failure ↦ (failure, ed1)
          | success ↦
              let (s2, ed2) = dump_children (dump_recursive fuel) a n.children ed1 in
              elim s2 [ failure ↦ (failure, ed2) | success ↦ dump_after a ed2 ]
        ]
  ]

  -- A node has its children at later addresses than its own, so that they are nested no deeper
  -- than there are nodes.
  unfoldable pub delta_dump_node_recursive : ℕ → Editor → Status × Editor
  unfolding dump_recursive
  delta_dump_node_recursive a ed = dump_recursive (length ed.nodes) a ed

  -- "We can unlink a possible temporary file now"
  unfoldable pub unlink_file : Text → Editor → Editor
  unfolding remove_file
  unlink_file path ed = elim (rhash_get ed.hashes.delta_hash path) [
    | none ↦ ed
    | some filename ↦ record ed {
      fs = remove_file ed.fs (some filename);
      hashes = record ed.hashes { delta_hash = rhash_set ed.hashes.delta_hash path none };
    }
  ]

  -- whether a dumped directory says that what is in it need not be dumped as deleted
  unfoldable pub covers : Editor → Text → Bool
  unfolding failed
  covers ed dir = elim (apr.get ed.dumped_entries dir >>= node_at ed) [
    | none ↦ false
    | some p ↦ (p.action == b'D') || failed p.cp_info
  ]

  -- The loop over the directories above a path: whether one covers it. `none` is out of fuel.
  unfoldable pub covered : ℕ → Editor → Text → Option Bool
  unfolding covers
  covered zero ed dir = none
  covered (suc fuel) ed [] = some false
  covered (suc fuel) ed (c ∷ dir) =
      let rest = covered fuel ed (svn.dirname (c ∷ dir)) in
      if covers ed (c ∷ dir) then some true else rest

  -- "a dump not starting at initial revision": whether the path is skipped, if it was not before
  unfoldable pub skip_unborn : Text → Bool → Editor → Bool × Editor
  skip_unborn path skip ed =
      let (answer, repo) = path_repo_exists ed.path_repo path ed.local_revnum in
      let missing = elim answer as (λ _. Bool) [
        | present ↦ false
        | absent ↦ true
        | unknown ↦ false
      ] in
      if not skip && (ltz (pos 1) ed.opts.start && eqz ed.log_revision.revision ed.opts.start)
      then (missing, record ed { path_repo = repo })
      else (skip, ed)

  unfoldable pub post_node : Garbage → Text → ChangedPath → Node
  post_node junk path log = record (node_no_parent junk path) {
    kind = node_other;
    action = log.action;
    dump_needed = true;
  }

  -- "Post-dumping"
  unfoldable pub post_dump : Garbage → Text → ChangedPath → Editor → Status × Editor
  unfolding post_node delta_create_node_no_parent dump_at
  post_dump junk path log ed =
      let (a, ed') = delta_create_node_no_parent junk path ed in
      dump_at a (put_node ed' a (post_node junk path log))

  -- A path that is deleted and has not been dumped: `skip` is what the loop over its parents says.
  unfoldable pub post_unless : Garbage → Text → ChangedPath → Editor → Option Bool → Status × Editor
  unfolding skip_unborn post_dump
  post_unless junk path log ed none = (failure, ed)
  post_unless junk path log ed (some skip) =
      let (skip', ed') = skip_unborn path skip ed in
      if skip' then (success, ed') else post_dump junk path log ed'

  -- The body of the loop of de_close_edit(). Each directory above a path is shorter than the path,
  -- so the rounds are enough.
  unfoldable pub close_path : Garbage → Text × ChangedPath → Editor → Status × Editor
  unfolding unlink_file covered post_unless
  close_path junk (path, log) ed =
      let ed1 = unlink_file path ed in
      if not (log.action == b'D')
      then (success, ed)
      else if is_some (apr.get ed1.dumped_entries path)
      then (success, ed1)
      else post_unless junk path log ed1 (covered (suc (length path)) ed1 (svn.dirname path))

  unfoldable pub close_paths : Garbage → List (Text × ChangedPath) → Editor → Status × Editor
  unfolding close_path
  close_paths junk [] ed = (success, ed)
  close_paths junk (p ∷ l) ed =
      let (s, ed') = close_path junk p ed in
      elim s [ failure ↦ (failure, ed') | success ↦ close_paths junk l ed' ]

  -- No root, and no list of changed paths, count as errors.
  unfoldable pub de_close_edit : Garbage → Editor → Status × Editor
  unfolding delta_dump_node_recursive close_paths
  de_close_edit junk ed = elim ed.root_node [
    | none ↦ (failure, ed)
    | some root ↦
        let (s, ed') = delta_dump_node_recursive root ed in
        elim s [
          | failure ↦ (failure, ed')
          | success ↦ elim ed'.log_revision.changed_paths [
            | none ↦ (failure, ed')
            | some changed ↦ close_paths junk (apr.entries changed) ed'
          ]
        ]
  ]

-- delta_editor_info_t
module _ ⦃apr : AprHash⦄ ⦃cb : Critbit⦄ ⦃obf : Obfuscation⦄ where
  pub record EditorInfo : Type 0 where
    pub session : Session
    pub options : DumpOptions
    pub path_repo : PathRepo
    pub property_storage : PropertyStorage
    pub logs : List LogRevision

module _ ⦃apr : AprHash⦄ where
  -- "Create global hashes if needed"
  unfoldable pub create_hashes : Hashes → Hashes
  create_hashes h = if h.hashes_created then h else record {
    hashes_created = true;
    delta_hash = rhash_make Text;
    md5_hash = rhash_make Text;
  }

  unfoldable pub delta_cleanup : Hashes → Hashes
  delta_cleanup h =
      if h.hashes_created
      then record {
        hashes_created = false;
        delta_hash = rhash_clear Text h.delta_hash;
        md5_hash = rhash_clear Text h.md5_hash;
      }
      else h

module _ ⦃apr : AprHash⦄ ⦃cb : Critbit⦄ ⦃obf : Obfuscation⦄ ⦃files : Files⦄ where
  -- The arguments after `local_revnum` are the global hashes and the file system. `root_node` is not
  -- set before de_open_root().
  unfoldable pub delta_setup_editor : EditorInfo → LogRevision → ℤ → Hashes → files.Fs → Editor
  unfolding create_hashes
  delta_setup_editor info log local_revnum hashes fs = record {
    session = info.session;
    opts = info.options;
    logs = info.logs;
    log_revision = log;
    dumped_entries = apr.make;
    local_revnum = local_revnum;
    root_node = none;
    path_repo = info.path_repo;
    prop_store = info.property_storage;
    hashes = create_hashes hashes;
    nodes = [];
    fs = fs;
    out = [];
  }
