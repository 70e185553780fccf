-- ===== src/Delta/Record/Checked.antt =====
-- delta_check_action() and delta_propagate_copy() of src/delta.c and the children of their node.
use rsvndump.Base.{
  ℕ, ◌≡◌, refl, ◌∙◌, Text, ◌⊎◌, List, [], ◌∷◌, Option, none, some, Status, success, failure, arith,
  inl, inr, ℤ, decz,
}
use rsvndump.Apr.{AprHash, AprStrings}
use rsvndump.Critbit.{Critbit}
use rsvndump.Snappy.{Snappy}
use rsvndump.Svn.{SvnCalls}
use rsvndump.Files.{Files}
use rsvndump.Session.{Obfuscation}
use rsvndump.PathRepo.{Answer, present, absent, unknown}
use rsvndump.PathRepo.Edit.{path_repo_exists}
use rsvndump.Delta.CopyFrom.{delta_get_local_copyfrom_path}
use rsvndump.Delta.Node.{
  Node, Editor, CopyInfo, cpi_none, cpi_copy, cpi_failed, cpi_failed_outside, after, parents,
  delta_mark_node,
}
use rsvndump.Delta.Copies.{
  delta_check_copy, check_source, resolve_copy, add_if_absent, ask_parent, check_in_copy,
  pass_parent, check_parents, check_failed, check_modified, check_root, check_end, check_existing,
  check_rest, end_action, delta_check_action, propagate_levels, propagate_from,
  delta_propagate_copy, find_source, relative_path,
}
use rsvndump.Delta.Record.{delta_deltify_node, delta_cat_file, finish_node}

module _ ⦃apr : AprHash⦄ ⦃cb : Critbit⦄ ⦃obf : Obfuscation⦄ ⦃files : Files⦄ where
  -- What a function of an editor and a node keeps of them.
  pub record Keeps (ed : Editor) (n : Node) (x : Status × Node × Editor) : Type 0 where
    pub nodes : x.2.nodes ≡ ed.nodes
    pub children : x.1.children ≡ n.children

  pub children-delta_check_copy :
      (ed : Editor) (n : Node) → (delta_check_copy ed n).children ≡ n.children
  unfolding delta_check_copy check_source resolve_copy
  children-delta_check_copy ed n = ground arith

  pub Keeps-finish_node : (a : ℕ) (ed : Editor) (n : Node) → Keeps ed n (finish_node a ed n)
  unfolding finish_node delta_mark_node
  Keeps-finish_node a ed n = record { nodes = refl; children = refl }

  pub Keeps-delta_deltify_node :
      ⦃svn : SvnCalls⦄ (ed : Editor) (n : Node) → Keeps ed n (delta_deltify_node ed n)
  unfolding delta_deltify_node
  Keeps-delta_deltify_node ed n = ground arith

  pub nodes-delta_cat_file :
      (ed : Editor) (path : Option Text) → (delta_cat_file ed path).1.nodes ≡ ed.nodes
  unfolding delta_cat_file
  nodes-delta_cat_file ed path = ground arith

  children-add_if_absent :
      (answer : Answer) (n : Node) → (add_if_absent answer n).1.children ≡ n.children
  unfolding add_if_absent
  children-add_if_absent unknown n = refl
  children-add_if_absent absent n = refl
  children-add_if_absent present n = refl

  pub Keeps-after :
      (ed : Editor) (n : Node) (x : Status × Node × Editor)
      (f : Editor → Node → Status × Node × Editor)
      → Keeps ed n x
      → ((e : Editor) (m : Node) → Keeps e m (f e m))
      → Keeps ed n (after x f)
  unfolding after
  Keeps-after ed n (failure, m, e) f h k = h
  Keeps-after ed n (success, m, e) f h k = record {
    nodes = (k e m).nodes ∙ h.nodes;
    children = (k e m).children ∙ h.children;
  }

module _ ⦃apr : AprHash⦄ ⦃strings : AprStrings⦄ ⦃cb : Critbit⦄ ⦃sn : Snappy⦄ ⦃obf : Obfuscation⦄
    ⦃files : Files⦄ where
  Keeps-ask_parent :
      (ed : Editor) (n : Node) (parent child : Text) (rev : ℤ)
      → Keeps ed n (ask_parent ed n parent child rev)
  unfolding ask_parent
  Keeps-ask_parent ed n parent child rev = record {
    nodes = refl;
    children = children-add_if_absent _ n;
  }

  Keeps-check_in_copy :
      (ed : Editor) (n p : Node) (o : Option Text) → Keeps ed n (check_in_copy ed n p o)
  unfolding check_in_copy
  Keeps-check_in_copy ed n p none = record { nodes = refl; children = refl }
  Keeps-check_in_copy ed n p (some source) = Keeps-ask_parent ed n source _ _

  -- for either result of the loop over the parents
  abbrev pub KeepsEither : Editor → Node → (Status × Node × Editor) ⊎ Node → Type 0
  KeepsEither ed n (inl x) = Keeps ed n x
  KeepsEither ed n (inr m) = m.children ≡ n.children

  Keeps-pass_parent :
      (ed : Editor) (n p : Node) (info : CopyInfo) (o : Option Text)
      (rest : (Status × Node × Editor) ⊎ Node)
      → KeepsEither ed n rest
      → KeepsEither ed n (pass_parent ed n p info o rest)
  unfolding pass_parent
  Keeps-pass_parent ed n p cpi_failed_outside o rest h = refl
  Keeps-pass_parent ed n p cpi_copy (some from) rest h = Keeps-check_in_copy ed n p _
  Keeps-pass_parent ed n p cpi_copy none rest h = h
  Keeps-pass_parent ed n p cpi_none o rest h = h
  Keeps-pass_parent ed n p cpi_failed o rest h = h

  Keeps-check_parents :
      (ed : Editor) (n : Node) (ps : List Node) → KeepsEither ed n (check_parents ed n ps)
  unfolding check_parents
  Keeps-check_parents ed n [] = refl
  Keeps-check_parents ed n (p ∷ ps) =
      Keeps-pass_parent ed n p p.cp_info p.copyfrom_path _ (Keeps-check_parents ed n ps)

  Keeps-check_modified : (ed : Editor) (n : Node) → Keeps ed n (check_modified ed n)
  unfolding check_modified
  Keeps-check_modified ed n =
      let answer = (path_repo_exists ed.path_repo n.path (decz ed.local_revnum)).0 in
      let same = children-add_if_absent answer n in
      record { nodes = ground arith; children = ground (arith, same) }

  Keeps-check_failed : ⦃svn : SvnCalls⦄ (ed : Editor) (n : Node) → Keeps ed n (check_failed ed n)
  unfolding check_failed
  Keeps-check_failed ⦃svn⦄ ed n =
      let dir = svn.dirname n.path in
      let k = Keeps-ask_parent ed n dir (relative_path n.path dir) (decz ed.local_revnum) in
      record { nodes = ground (arith, k.nodes); children = ground (arith, k.children) }

  children-check_root : (n : Node) → (check_root n).children ≡ n.children
  unfolding check_root
  children-check_root n = ground arith

  Keeps-check_end : (ed : Editor) (n : Node) → Keeps ed n (check_end ed n)
  unfolding check_end
  Keeps-check_end ed n = record { nodes = refl; children = children-check_root n }

  Keeps-check_existing : (ed : Editor) (n : Node) → Keeps ed n (check_existing ed n)
  unfolding check_existing
  Keeps-check_existing ed n =
      Keeps-after ed n (check_modified ed n) check_end (Keeps-check_modified ed n) Keeps-check_end

  Keeps-check_rest : ⦃svn : SvnCalls⦄ (ed : Editor) (n : Node) → Keeps ed n (check_rest ed n)
  unfolding check_rest
  Keeps-check_rest ed n =
      Keeps-after ed n (check_failed ed n) check_existing (Keeps-check_failed ed n)
        Keeps-check_existing

  Keeps-end_action :
      ⦃svn : SvnCalls⦄ (ed : Editor) (n : Node) (x : (Status × Node × Editor) ⊎ Node)
      → KeepsEither ed n x
      → Keeps ed n (end_action ed x)
  unfolding end_action
  Keeps-end_action ed n (inl x) h = h
  Keeps-end_action ed n (inr m) h =
      let k = Keeps-check_rest ed m in record { nodes = k.nodes; children = k.children ∙ h }

  pub Keeps-delta_check_action :
      ⦃svn : SvnCalls⦄ (ed : Editor) (n : Node) → Keeps ed n (delta_check_action ed n)
  unfolding delta_check_action
  Keeps-delta_check_action ed n =
      let k =
        Keeps-end_action ed n (check_parents ed n (parents ed n))
          (Keeps-check_parents ed n (parents ed n)) in
      record { nodes = ground (arith, k.nodes); children = ground (arith, k.children) }

  Keeps-propagate_levels :
      (ed : Editor) (source c : Node) (o : Option Text)
      → Keeps ed c (propagate_levels ed source c o)
  unfolding propagate_levels
  Keeps-propagate_levels ed source c none = record { nodes = refl; children = refl }
  Keeps-propagate_levels ed source c (some path) = record { nodes = refl; children = refl }

  Keeps-propagate_from :
      (ed : Editor) (p c : Node) (o : Option (Node × Text)) → Keeps ed c (propagate_from ed p c o)
  unfolding propagate_from
  Keeps-propagate_from ed p c none = record { nodes = refl; children = refl }
  Keeps-propagate_from ed p c (some (source, from)) =
      Keeps-propagate_levels ed source c (delta_get_local_copyfrom_path ed.session.prefix from)

  pub Keeps-delta_propagate_copy :
      (ed : Editor) (p c : Node) → Keeps ed c (delta_propagate_copy ed p c)
  unfolding delta_propagate_copy
  Keeps-delta_propagate_copy ed p c =
      let k = Keeps-propagate_from ed p c (find_source (p ∷ parents ed p)) in
      record { nodes = ground (arith, k.nodes); children = ground (arith, k.children) }
