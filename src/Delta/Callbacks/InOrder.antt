-- ===== src/Delta/Callbacks/InOrder.antt =====
-- What the callbacks of src/delta.c keep of the arena: a child comes after its parent.
use rsvndump.Base.{
  ℕ, ◌≡◌, refl, ◌∙◌, Text, Option, none, some, [], ◌∷◌, ◌++◌, length, codes, set, Option-cases, inl,
  inr,
}
use rsvndump.Apr.{AprHash}
use rsvndump.Critbit.{Critbit}
use rsvndump.Snappy.{Snappy}
use rsvndump.Svn.{SvnCalls}
use rsvndump.Files.{Files}
use rsvndump.Rhash.{rhash_get}
use rsvndump.Ra.{NodeKind}
use rsvndump.Session.{Obfuscation}
use rsvndump.Log.{ChangedPath}
use rsvndump.Property.Store.{Md5}
use rsvndump.Delta.Node.{
  Garbage, Node, Editor, node_at, node_no_parent, delta_create_node_no_parent,
}
use rsvndump.Delta.Forest.{IsForest-append, get_elem?-end, SameTree-set, SameTree-IsForest}
use rsvndump.Delta.Changes.{deleted_entry, opened}
use rsvndump.Delta.Record.{make_temp, read_old}
use rsvndump.Delta.Callbacks.{
  add_node, de_open_root, forget_data, schedule_delete, schedule_add, obfuscated, de_delete_entry,
  add_child, add_logged, finish_add, finish_open, delta_applied, de_apply_textdelta, run_handler,
  apply_windows, load_properties, open_child, close_child,
}
use rsvndump.Delta.Callbacks.Arranged.{
  InOrder, put_node-InOrder, InOrderIf, add_node-InOrder, nodes-obfuscated, nodes-forget_data,
  nodes-schedule_delete, nodes-schedule_add, InOrder-same,
}

module _ ⦃apr : AprHash⦄ ⦃cb : Critbit⦄ ⦃obf : Obfuscation⦄ ⦃files : Files⦄ where
  pub de_open_root-InOrder :
      (junk : Garbage) (ed : Editor) → InOrder ed → InOrder (de_open_root junk ed).1
  unfolding de_open_root
  de_open_root-InOrder junk ed i =
      let x = node_no_parent junk (codes "/") in
      let l = ed.nodes ++ x ∷ [] in
      let empty : x.children ≡ [] = unfold node_no_parent in refl in
      unfold delta_create_node_no_parent in
      SameTree-IsForest l (set l (length ed.nodes) (record x { action = b'M' }))
        (SameTree-set l (length ed.nodes) x (record x { action = b'M' }) (get_elem?-end ed.nodes x)
          refl)
        (IsForest-append ed.nodes x empty i)

  pub de_delete_entry-InOrder :
      (junk : Garbage) (path : Text) (a : ℕ) (ed : Editor)
      → InOrder ed
      → InOrder (de_delete_entry junk path a ed).1
  unfolding de_delete_entry
  de_delete_entry-InOrder junk path a ed i =
      let (path', ed1) = obfuscated path ed in
      let i1 = InOrder-same ed ed1 (nodes-obfuscated path ed) i in
      let added =
        add_node-InOrder junk path' a deleted_entry ed1 (λ n. unfold deleted_entry in refl) i1 in
      elim (Option-cases (add_node junk path' a deleted_entry ed1)) [
        | inl e ↦ rw (e, de_delete_entry) i1
        | inr (x, e) ↦
            let here : InOrder x.1 = rw e at added in
            rw (e, de_delete_entry)
              (InOrder-same x.1 (schedule_delete path' (forget_data junk path' x.1)).1
                (nodes-schedule_delete path' (forget_data junk path' x.1)
                  ∙ nodes-forget_data junk path' x.1)
                here)
      ]

  add_logged-InOrder :
      (f : Option ChangedPath → Node → Node) (junk : Garbage) (path : Text) (a : ℕ) (ed : Editor)
      (o : Option (apr.Hash ChangedPath))
      → ((o : Option ChangedPath) (n : Node) → (f o n).children ≡ n.children)
      → InOrder ed
      → InOrderIf (add_logged f junk path a ed o)
  unfolding add_logged
  add_logged-InOrder f junk path a ed none h i = tt
  add_logged-InOrder f junk path a ed (some changed) h i =
      add_node-InOrder junk path a (f (apr.get changed path)) ed (h (apr.get changed path)) i

  finish_add-InOrder :
      (path : Text) (ed : Editor) (o : Option (ℕ × Editor))
      → InOrder ed
      → InOrderIf o
      → InOrder (finish_add path ed o).2
  unfolding finish_add
  finish_add-InOrder path ed none i h = i
  finish_add-InOrder path ed (some (c, ed')) i h =
      InOrder-same ed' (schedule_add path ed').1 (nodes-schedule_add path ed') h

  pub add_child-InOrder :
      (f : Option ChangedPath → Node → Node) (junk : Garbage) (path : Text) (a : ℕ) (ed : Editor)
      → ((o : Option ChangedPath) (n : Node) → (f o n).children ≡ n.children)
      → InOrder ed
      → InOrder (add_child f junk path a ed).2
  unfolding add_child
  add_child-InOrder f junk path a ed h i =
      let (path', ed1) = obfuscated path ed in
      let i1 = InOrder-same ed ed1 (nodes-obfuscated path ed) i in
      let changed = ed1.log_revision.changed_paths in
      finish_add-InOrder path' ed1 (add_logged f junk path' a ed1 changed) i1
        (add_logged-InOrder f junk path' a ed1 changed h i1)

  -- The handler writes to the node that the callback has changed.
  pub run_handler-InOrder :
      (a : ℕ) (w : files.Windows) (source name : Text) (ed : Editor)
      → InOrder ed
      → InOrder (run_handler a w (source, name, ed)).1
  unfolding run_handler
  run_handler-InOrder a w source name ed i = elim (Option-cases (files.patch source w)) [
    | inl e ↦ rw (e, run_handler) i
    | inr (d, e) ↦ elim (Option-cases (node_at ed a)) [
      | inl e' ↦ rw (e, e', run_handler) i
      | inr (n, e') ↦
          rw (e, e', run_handler) (put_node-InOrder ed a n (record n { md5sum = d.1 }) e' refl i)
    ]
  ]

  pub apply_windows-InOrder :
      ⦃svn : SvnCalls⦄ (a : ℕ) (w : files.Windows) (ed : Editor)
      → InOrder ed
      → InOrder (apply_windows a w ed).1
  unfolding apply_windows de_apply_textdelta
  apply_windows-InOrder a w ed i = elim (Option-cases (node_at ed a)) [
    | inl e ↦ rw (e, apply_windows) i
    | inr (n, e) ↦ elim (Option-cases (make_temp ed (codes "/td/XXXXXX"))) [
      | inl e' ↦ rw (e, e', apply_windows) i
      | inr (temp, e') ↦
          let old = rhash_get ed.hashes.delta_hash n.path in
          elim (Option-cases (read_old temp.1 old)) [
            | inl e'' ↦ rw (e, e', e'', apply_windows) i
            | inr (source, e'') ↦
                rw (e, e', e'', apply_windows)
                  (run_handler-InOrder a w source temp.0 _ (
                    put_node-InOrder ed a n (delta_applied temp.0 old n) e
                      (unfold delta_applied in refl) i))
          ]
    ]
  ]

module _ ⦃apr : AprHash⦄ ⦃cb : Critbit⦄ ⦃sn : Snappy⦄ ⦃obf : Obfuscation⦄ ⦃files : Files⦄ where
  load_properties-InOrder : (c : ℕ) (ed : Editor) → InOrder ed → InOrder (load_properties c ed).1
  unfolding load_properties
  load_properties-InOrder c ed i = elim (Option-cases (node_at ed c)) [
    | inl e ↦ rw (e, load_properties) i
    | inr (n, e) ↦ rw (e, load_properties) (put_node-InOrder ed c n _ e refl i)
  ]

  finish_open-InOrder :
      (ed : Editor) (o : Option (ℕ × Editor))
      → InOrder ed
      → InOrderIf o
      → InOrder (finish_open ed o).2
  unfolding finish_open
  finish_open-InOrder ed none i h = i
  finish_open-InOrder ed (some (c, ed')) i h = load_properties-InOrder c ed' h

  pub open_child-InOrder :
      (kind : NodeKind) (junk : Garbage) (path : Text) (a : ℕ) (ed : Editor)
      → InOrder ed
      → InOrder (open_child kind junk path a ed).2
  unfolding open_child
  open_child-InOrder kind junk path a ed i =
      let (path', ed1) = obfuscated path ed in
      let i1 = InOrder-same ed ed1 (nodes-obfuscated path ed) i in
      finish_open-InOrder ed1 (add_node junk path' a (opened kind) ed1) i1
        (add_node-InOrder junk path' a (opened kind) ed1 (λ n. unfold opened in refl) i1)

  pub close_child-InOrder :
      ⦃md : Md5⦄ (a : ℕ) (ed : Editor) → InOrder ed → InOrder (close_child a ed).1
  unfolding close_child
  close_child-InOrder a ed i = elim (Option-cases (node_at ed a)) [
    | inl e ↦ rw (e, close_child) i
    | inr (n, e) ↦ rw (e, close_child) i
  ]
