-- ===== src/Delta/Copies.antt =====
-- delta_check_copy(), delta_check_action() and delta_propagate_copy() of src/delta.c. What is asked
-- of the path repository changes its cache, so that the editor is returned too. A NULL that is
-- printed by "%s" counts as a failure.
pub mod Levels
use rsvndump.Base.{
  Text, text_eq, ℤ, pos, decz, eqz, lez, starts_with, Bool, true, false, not, ◌&&◌, ◌||◌, ◌==◌,
  if◌then◌else◌, Option, none, some, List, [], ◌∷◌, ◌++◌, ◌⊎◌, inl, inr, length, drop, codes,
  Status, success, failure,
}
use rsvndump.Apr.{AprHash, AprStrings}
use rsvndump.Critbit.{Critbit}
use rsvndump.Snappy.{Snappy}
use rsvndump.Svn.{SvnCalls}
use rsvndump.Files.{Files}
use rsvndump.Session.{Obfuscation}
use rsvndump.PathRepo.{PathRepo, Answer, present, absent, unknown}
use rsvndump.PathRepo.Edit.{path_repo_check_parent, path_repo_exists}
use rsvndump.Delta.CopyFrom.{
  ltz, skip_slashes, delta_get_local_copyfrom_path, delta_get_local_copyfrom_rev,
}
use rsvndump.Delta.Node.{
  Node, Editor, parents, CopyInfo, cpi_none, cpi_copy, cpi_failed, cpi_failed_outside, failed,
  copied, after, is_some,
}

module _ ⦃apr : AprHash⦄ ⦃cb : Critbit⦄ ⦃obf : Obfuscation⦄ ⦃files : Files⦄ where
  -- What both checks ask first: whether the information from the log can be used.
  unfoldable pub trusts_log : Editor → Bool
  trusts_log ed =
      (length ed.session.prefix == 0) && (eqz ed.opts.start (pos 0) || ed.opts.flags.incremental)

  -- The source is in the range of the revisions, and under the session's prefix.
  unfoldable pub reachable : Editor → Node → Text → Bool
  reachable ed n path =
      (ed.opts.flags.incremental || lez ed.opts.start n.copyfrom_revision)
      && starts_with ed.session.prefix path

  unfoldable pub resolve_copy : Editor → Node → Node
  resolve_copy ed n =
      let rev = delta_get_local_copyfrom_rev n.copyfrom_revision ed.opts ed.logs in
      if ltz (pos 0) rev
      then record n { copyfrom_rev_local = rev; cp_info = cpi_copy }
      else record n { cp_info = cpi_failed }

  -- from the "Sanity check" on
  unfoldable pub check_source : Editor → Node → Option Text → Node
  unfolding trusts_log reachable resolve_copy
  check_source ed n none = record n { cp_info = cpi_none }
  check_source ed n (some path) =
      if trusts_log ed
      then record n { copyfrom_rev_local = n.copyfrom_revision; cp_info = cpi_copy }
      else if reachable ed n path
      then resolve_copy ed n
      else record n { cp_info = cpi_failed_outside }

  unfoldable pub delta_check_copy : Editor → Node → Node
  unfolding check_source failed copied
  delta_check_copy ed n =
      if (copied n.cp_info && not (is_some n.copyfrom_path)) || failed n.cp_info
      then n
      else check_source ed n n.copyfrom_path

-- What comes of a question: an error, or an action that becomes an 'add', or none of these.
module _ ⦃apr : AprHash⦄ where
  unfoldable pub add_if_absent : Answer → Node → Status × Node
  add_if_absent unknown n = (failure, n)
  add_if_absent absent n = (success, record n { action = b'A' })
  add_if_absent present n = (success, n)

  -- "Determine copy information": the first node that has a source
  unfoldable pub find_source : List Node → Option (Node × Text)
  find_source [] = none
  find_source (n ∷ ns) = elim n.copyfrom_path [ some path ↦ some (n, path) | none ↦ find_source ns ]

-- node->path + strlen(dir), without the slashes that it begins with
unfoldable pub relative_path : Text → Text → Text
relative_path path dir = skip_slashes (drop (length dir) path)

-- what is before the first slash, or everything
unfoldable pub before_slash : Text → Text
before_slash [] = []
before_slash (c ∷ s) = let rest = before_slash s in if c == b'/' then [] else c ∷ rest

module _ ⦃apr : AprHash⦄ ⦃strings : AprStrings⦄ ⦃cb : Critbit⦄ ⦃sn : Snappy⦄ where
  -- "Check the old parent relationship for every directory level": at every slash, the directory
  -- before it must have had the child after it. `done` is what is before `rest`.
  unfoldable pub check_levels : ℤ → Text → Text → PathRepo → Answer × PathRepo
  unfolding before_slash
  check_levels rev [] done repo = (present, repo)
  check_levels rev (c ∷ rest) done repo = elim (c == b'/') [
    | false ↦ check_levels rev rest (done ++ c ∷ []) repo
    | true ↦
        let (answer, repo') = path_repo_check_parent repo done (before_slash rest) rev in
        elim answer [
          | unknown ↦ (unknown, repo')
          | absent ↦ (absent, repo')
          | present ↦ check_levels rev rest (done ++ c ∷ []) repo'
        ]
  ]

-- the copy information of a child, by the answer for its levels
unfoldable pub copy_if_present : Answer → CopyInfo → Status × CopyInfo
copy_if_present unknown info = (failure, info)
copy_if_present absent info = (success, cpi_none)
copy_if_present present info = (success, cpi_copy)

module _ ⦃apr : AprHash⦄ ⦃strings : AprStrings⦄ ⦃cb : Critbit⦄ ⦃sn : Snappy⦄ ⦃obf : Obfuscation⦄
    ⦃files : Files⦄ where
  unfoldable pub ask_parent : Editor → Node → Text → Text → ℤ → Status × Node × Editor
  unfolding add_if_absent
  ask_parent ed n parent child rev =
      let (answer, repo) = path_repo_check_parent ed.path_repo parent child rev in
      let (s, n') = add_if_absent answer n in (s, n', record ed { path_repo = repo })

  -- "Found a successfully copied parent"; the last argument is its local source
  unfoldable pub check_in_copy : Editor → Node → Node → Option Text → Status × Node × Editor
  unfolding ask_parent relative_path
  check_in_copy ed n p none = (failure, n, ed)
  check_in_copy ed n p (some source) =
      ask_parent ed n source (relative_path n.path p.path) p.copyfrom_rev_local

  -- A round of the loop over the parents; `rest` is what the other rounds give.
  unfoldable pub pass_parent :
      Editor
      → Node
      → Node
      → CopyInfo
      → Option Text
      → (Status × Node × Editor) ⊎ Node
      → (Status × Node × Editor) ⊎ Node
  unfolding check_in_copy
  pass_parent ed n p cpi_failed_outside from rest = inr (record n { action = b'A' })
  pass_parent ed n p cpi_copy (some from) rest =
      inl (check_in_copy ed n p (delta_get_local_copyfrom_path ed.session.prefix from))
  pass_parent ed n p cpi_copy none rest = rest
  pass_parent ed n p cpi_none from rest = rest
  pass_parent ed n p cpi_failed from rest = rest

  -- "First, check the node's parents": what is returned, or the node after the loop
  unfoldable pub check_parents : Editor → Node → List Node → (Status × Node × Editor) ⊎ Node
  unfolding pass_parent
  check_parents ed n [] = inr n
  check_parents ed n (p ∷ ps) = pass_parent ed n p p.cp_info p.copyfrom_path (check_parents ed n ps)

  -- "If the node is part of a failed copy operation"
  unfoldable pub check_failed : ⦃svn : SvnCalls⦄ → Editor → Node → Status × Node × Editor
  unfolding ask_parent relative_path failed
  check_failed ⦃svn⦄ ed n =
      let ppath = svn.dirname n.path in
      if failed n.cp_info && n.action == b'R'
      then ask_parent ed n ppath (relative_path n.path ppath) (decz ed.local_revnum)
      else (success, n, ed)

  -- "modifications on previously non-existent items"
  unfoldable pub check_modified : Editor → Node → Status × Node × Editor
  unfolding add_if_absent
  check_modified ed n =
      let (answer, repo) = path_repo_exists ed.path_repo n.path (decz ed.local_revnum) in
      let (s, n') = add_if_absent answer n in
      if (n.action == b'M') && ltz (pos 0) ed.local_revnum
      then (s, n', record ed { path_repo = repo })
      else (success, n, ed)

  -- "the root node is being reported as added"
  unfoldable pub check_root : Node → Node
  check_root n =
      if text_eq n.path (codes "/") && n.action == b'A' then record n { action = b'M' } else n

  unfoldable pub check_end : Editor → Node → Status × Node × Editor
  unfolding check_root
  check_end ed n = (success, check_root n, ed)

  -- the last two checks
  unfoldable pub check_existing : Editor → Node → Status × Node × Editor
  unfolding after check_modified check_end
  check_existing ed n = after (check_modified ed n) check_end

  unfoldable pub check_rest : ⦃svn : SvnCalls⦄ → Editor → Node → Status × Node × Editor
  unfolding after check_failed check_existing
  check_rest ed n = after (check_failed ed n) check_existing

  unfoldable pub end_action :
      ⦃svn : SvnCalls⦄ → Editor → (Status × Node × Editor) ⊎ Node → Status × Node × Editor
  unfolding check_rest
  end_action ed (inl returned) = returned
  end_action ed (inr n) = check_rest ed n

  unfoldable pub delta_check_action : ⦃svn : SvnCalls⦄ → Editor → Node → Status × Node × Editor
  unfolding check_parents end_action trusts_log
  delta_check_action ed n =
      if not (n.action == b'R') && not (n.action == b'M')
      then (success, n, ed)
      else if trusts_log ed
      then (success, n, ed)
      else end_action ed (check_parents ed n (parents ed n))

  -- "Build" the path of the child under the source, and check its levels. `path` is the local source
  -- of the copied node.
  unfoldable pub propagate_levels : Editor → Node → Node → Option Text → Status × Node × Editor
  unfolding check_levels relative_path copy_if_present
  propagate_levels ed source c none = (success, record c { cp_info = cpi_none }, ed)
  propagate_levels ed source c (some path) =
      let rev = delta_get_local_copyfrom_rev source.copyfrom_revision ed.opts ed.logs in
      let check_path = path ++ (b'/' ∷ relative_path c.path source.path) in
      let (answer, repo) = check_levels rev check_path [] ed.path_repo in
      let (s, info) = copy_if_present answer c.cp_info in
      (s, record c { cp_info = info }, record ed { path_repo = repo })

  -- from "Determine copy information" on; the last argument is the node that is copied, with its
  -- source
  unfoldable pub propagate_from :
      Editor → Node → Node → Option (Node × Text) → Status × Node × Editor
  unfolding propagate_levels
  propagate_from ed p c none = (success, record c { cp_info = p.cp_info }, ed)
  propagate_from ed p c (some (source, from)) =
      propagate_levels ed source c (delta_get_local_copyfrom_path ed.session.prefix from)

  unfoldable pub delta_propagate_copy : Editor → Node → Node → Status × Node × Editor
  unfolding propagate_from copied find_source
  delta_propagate_copy ed p c =
      if not (copied p.cp_info)
      then (success, record c { cp_info = p.cp_info }, ed)
      else if not (starts_with p.path c.path)
      then (success, c, ed)
      else propagate_from ed p c (find_source (p ∷ parents ed p))
