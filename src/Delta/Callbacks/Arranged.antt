-- ===== src/Delta/Callbacks/Arranged.antt =====
-- Where the callbacks of src/delta.c change the arena of nodes, a child comes after its parent.
use rsvndump.Base.{
  ℕ, ◌≡◌, refl, sym, ◌∙◌, subst, Text, true, Option, none, some, List, [], ◌∷◌, ◌++◌, length, set,
  arith, Option-cases, Bool-cases, inl, inr,
}
use rsvndump.Apr.{AprHash}
use rsvndump.Critbit.{Critbit}
use rsvndump.Files.{Files}
use rsvndump.Rhash.{Entry}
use rsvndump.Ra.{node_file}
use rsvndump.Session.{Obfuscation}
use rsvndump.Log.{ChangedPath}
use rsvndump.Delta.Node.{
  Garbage, Node, Editor, node_at, put_node, node_below, node_no_parent, delta_create_node,
}
use rsvndump.Delta.Forest.{
  IsForest, IsForest-register, get_elem?-last, SameTree-set, SameTree-IsForest,
}
use rsvndump.Delta.Changes.{take_log, directory_by_log, file_by_log, change_prop, lies_below}
use rsvndump.Delta.Callbacks.{
  add_node, forget_file, forget_files, forget_data, schedule_delete, schedule_add, obfuscated,
  change_node,
}

module _ ⦃apr : AprHash⦄ where
  children-take_log : (o : Option ChangedPath) (n : Node) → (take_log o n).children ≡ n.children
  unfolding take_log
  children-take_log none n = refl
  children-take_log (some log) n = elim (Option-cases log.copyfrom_path) [
    | inl e ↦ rw (e, take_log) refl
    | inr (p, e) ↦ rw (e, take_log) refl
  ]

  pub children-directory_by_log :
      (o : Option ChangedPath) (n : Node) → (directory_by_log o n).children ≡ n.children
  unfolding directory_by_log
  children-directory_by_log o n = children-take_log o _

  pub children-file_by_log :
      (o : Option ChangedPath) (n : Node) → (file_by_log o n).children ≡ n.children
  unfolding file_by_log
  children-file_by_log o n =
      ground (arith, children-take_log o (record n { kind = node_file; dump_needed = true }))

  pub children-change_prop :
      (name : Text) (value : Option Text) (n : Node)
      → (change_prop name value n).children ≡ n.children
  unfolding change_prop
  children-change_prop name none n = refl
  children-change_prop name (some v) n = refl

module _ ⦃apr : AprHash⦄ ⦃cb : Critbit⦄ ⦃obf : Obfuscation⦄ ⦃files : Files⦄ where
  -- A child comes after its parent.
  abbrev pub InOrder : Editor → Type 0
  InOrder ed = IsForest ed.nodes

  pub put_node-InOrder :
      (ed : Editor) (a : ℕ) (n m : Node)
      → node_at ed a ≡ some n
      → m.children ≡ n.children
      → InOrder ed
      → InOrder (put_node ed a m)
  put_node-InOrder ed a n m e h i =
      SameTree-IsForest ed.nodes (set ed.nodes a m) (SameTree-set ed.nodes a n m e h) i

  pub change_node-InOrder :
      (ed : Editor) (a : ℕ) (f : Node → Node)
      → ((n : Node) → (f n).children ≡ n.children)
      → InOrder ed
      → InOrder (change_node a f ed).1
  unfolding change_node
  change_node-InOrder ed a f h i = elim (Option-cases (node_at ed a)) [
    | inl e ↦ rw (e, change_node) i
    | inr (n, e) ↦ rw (e, change_node) (put_node-InOrder ed a n (f n) e (h n) i)
  ]

  -- of an editor that may be there
  abbrev pub InOrderIf : Option (ℕ × Editor) → Type 0
  InOrderIf none = Unit
  InOrderIf (some x) = InOrder x.1

  pub add_node-InOrder :
      (junk : Garbage) (path : Text) (a : ℕ) (f : Node → Node) (ed : Editor)
      → ((n : Node) → (f n).children ≡ n.children)
      → InOrder ed
      → InOrderIf (add_node junk path a f ed)
  unfolding add_node
  add_node-InOrder junk path a f ed h i = elim (Option-cases (node_at ed a)) [
    | inl e ↦ rw (e, add_node) tt
    | inr (p, e) ↦
        let x = node_below junk path a p in
        let m = record p { children = p.children ++ length ed.nodes ∷ [] } in
        let l = set ed.nodes a m ++ x ∷ [] in
        let forest =
          IsForest-register ed.nodes a p x e (unfold node_below node_no_parent in refl) i in
        let there = get_elem?-last ed.nodes a m x in
        rw (e, add_node)
          (unfold delta_create_node in
            SameTree-IsForest l (set l (length ed.nodes) (f x))
              (SameTree-set l (length ed.nodes) x (f x) there (h x)) forest)
  ]

  pub nodes-obfuscated : (path : Text) (ed : Editor) → (obfuscated path ed).1.nodes ≡ ed.nodes
  unfolding obfuscated
  nodes-obfuscated path ed = refl

  nodes-forget_files :
      (junk : Garbage) (path : Text) (l : List (Text × Entry Text)) (ed : Editor)
      → (forget_files junk path l ed).nodes ≡ ed.nodes
  unfolding forget_files
  nodes-forget_files junk path [] ed = refl
  nodes-forget_files junk path (hi ∷ l) ed = elim (Bool-cases (lies_below path hi.0)) [
    | inl e ↦
        rw e (nodes-forget_files junk path l (forget_file junk hi ed) ∙ unfold forget_file in refl)
    | inr e ↦ rw e (nodes-forget_files junk path l ed)
  ]

  pub nodes-forget_data :
      (junk : Garbage) (path : Text) (ed : Editor) → (forget_data junk path ed).nodes ≡ ed.nodes
  unfolding forget_data
  nodes-forget_data junk path ed =
      nodes-forget_files junk path (apr.entries ed.hashes.delta_hash) ed

  pub nodes-schedule_delete :
      (path : Text) (ed : Editor) → (schedule_delete path ed).1.nodes ≡ ed.nodes
  unfolding schedule_delete
  nodes-schedule_delete path ed = ground arith

  pub nodes-schedule_add : (path : Text) (ed : Editor) → (schedule_add path ed).1.nodes ≡ ed.nodes
  unfolding schedule_add
  nodes-schedule_add path ed = ground arith

  -- The same nodes are in order.
  pub InOrder-same : (ed ed' : Editor) → ed'.nodes ≡ ed.nodes → InOrder ed → InOrder ed'
  InOrder-same ed ed' e i = subst IsForest (sym e) i
