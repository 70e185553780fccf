-- ===== src/Delta/Record/Kept.antt =====
-- delta_dump_node() of src/delta.c and the children of its node.
use rsvndump.Base.{
  ℕ, zero, suc, ◌≡◌, refl, Text, Bool, true, false, ◌&&◌, ◌==◌, Option, none, some, Status, success,
  failure, arith, Option-cases, inl, inr, not, ◌||◌,
}
use rsvndump.Apr.{AprHash, AprStrings}
use rsvndump.Critbit.{Critbit}
use rsvndump.Snappy.{Snappy}
use rsvndump.Svn.{DumpNames, SvnCalls}
use rsvndump.Files.{Files}
use rsvndump.Session.{Obfuscation}
use rsvndump.Delta.Node.{is_file, is_dir, Node, Editor, print}
use rsvndump.Delta.Copies.{delta_check_copy, delta_check_action}
use rsvndump.Delta.Print.{delete_record, node_fields, copy_fields}
use rsvndump.Delta.Record.{
  delta_deltify_node, finish_node, dump_contents, dump_sections, dump_and_finish, dump_rest,
  dump_copied, dump_local, dump_from, dump_record, replaced, dump_checked, dump_call, dump_calls,
  delta_dump_node, content_file, file_size, copy_content, copy_source,
}
use rsvndump.Delta.Record.Checked.{
  Keeps, children-delta_check_copy, Keeps-finish_node, Keeps-delta_deltify_node,
  nodes-delta_cat_file, Keeps-after, Keeps-delta_check_action,
}

module _ ⦃names : DumpNames⦄ ⦃apr : AprHash⦄ ⦃strings : AprStrings⦄ ⦃cb : Critbit⦄ ⦃sn : Snappy⦄
    ⦃obf : Obfuscation⦄ ⦃files : Files⦄ ⦃svn : SvnCalls⦄ where
  nodes-dump_contents : (ed : Editor) (n : Node) → (dump_contents ed n).1.nodes ≡ ed.nodes
  unfolding dump_contents
  nodes-dump_contents ed n = ground (arith, nodes-delta_cat_file ed (content_file ed.opts n))

  nodes-dump_sections :
      (ed : Editor) (n : Node) (content props : Bool)
      → (dump_sections ed n content props).1.nodes ≡ ed.nodes
  unfolding dump_sections
  nodes-dump_sections ed n false props = refl
  nodes-dump_sections ed n true props =
      elim (Option-cases (file_size ed.fs (content_file ed.opts n))) [
        | inl e ↦ rw (e, dump_sections) refl
        | inr (size, e) ↦ rw (e, dump_sections) (nodes-dump_contents _ n)
      ]

  Keeps-dump_and_finish :
      (a : ℕ) (content props : Bool) (ed : Editor) (n : Node)
      → Keeps ed n (dump_and_finish a content props ed n)
  unfolding dump_and_finish
  Keeps-dump_and_finish a content props ed n =
      let (s, ed') = dump_sections ed n content props in
      Keeps-after ed n (s, n, ed') (finish_node a)
        (record { nodes = nodes-dump_sections ed n content props; children = refl })
        (Keeps-finish_node a)

  Keeps-dump_rest :
      (a : ℕ) (content props : Bool) (ed : Editor) (n : Node)
      → Keeps ed n (dump_rest a content props ed n)
  unfolding dump_rest
  Keeps-dump_rest a content props ed n =
      let direct = Keeps-dump_and_finish a content props ed n in
      let delta =
        Keeps-after ed n (delta_deltify_node ed n) (dump_and_finish a content props)
          (Keeps-delta_deltify_node ed n) λ e m. Keeps-dump_and_finish a content props e m in
      record {
        nodes = ground (arith, direct.nodes, delta.nodes);
        children = ground (arith, direct.children, delta.children);
      }

  -- What is printed before does not matter.
  Keeps-print :
      (ed : Editor) (n : Node) (text : Text) (x : Status × Node × Editor)
      → Keeps (print ed text) n x
      → Keeps ed n x
  Keeps-print ed n text x h = record { nodes = h.nodes; children = h.children }

  Keeps-dump_copied :
      (a : ℕ) (ed : Editor) (n : Node) (content props : Bool) (path : Text)
      → Keeps ed n (dump_copied a ed n content props path)
  unfolding dump_copied
  Keeps-dump_copied a ed n content props path =
      let ed' = print ed (copy_fields ed.opts n path) in
      let content' = copy_content ed n path content && not (is_dir n.kind) in
      let done = Keeps-print ed n (copy_fields ed.opts n path) _ (Keeps-finish_node a ed' n) in
      let rest =
        Keeps-print ed n (copy_fields ed.opts n path) _ (Keeps-dump_rest a content' props ed' n) in
      record {
        nodes = ground (arith, done.nodes, rest.nodes);
        children = ground (arith, done.children, rest.children);
      }

  Keeps-dump_local :
      (a : ℕ) (ed : Editor) (n : Node) (content props : Bool) (o : Option Text)
      → Keeps ed n (dump_local a ed n content props o)
  unfolding dump_local
  Keeps-dump_local a ed n content props none = record { nodes = refl; children = refl }
  Keeps-dump_local a ed n content props (some path) = Keeps-dump_copied a ed n content props path

  Keeps-dump_from :
      (a : ℕ) (ed : Editor) (n : Node) (content props : Bool) (o : Option Text)
      → Keeps ed n (dump_from a ed n content props o)
  unfolding dump_from
  Keeps-dump_from a ed n content props none = Keeps-dump_rest a content props ed n
  Keeps-dump_from a ed n content props (some from) = Keeps-dump_local a ed n content props _

  Keeps-dump_record : (a : ℕ) (ed : Editor) (n : Node) → Keeps ed n (dump_record a ed n)
  unfolding dump_record
  Keeps-dump_record a ed n =
      let text = node_fields ed.opts n in
      let done = Keeps-print ed n text _ (Keeps-finish_node a (print ed text) n) in
      let rest = Keeps-print ed n text _ (
        Keeps-dump_from a (print ed text) n (is_file n.kind && n.applied_delta)
          (n.props_changed || n.action == b'A') (copy_source n)) in
      record {
        nodes = ground (arith, done.nodes, rest.nodes);
        children = ground (arith, done.children, rest.children);
      }

  Keeps-dump_checked :
      (again : Editor → Node → Status × Node × Editor) (a : ℕ) (s : Status) (n : Node) (ed : Editor)
      → ((e : Editor) (m : Node) → Keeps e m (again e m))
      → Keeps ed n (dump_checked again a s n ed)
  unfolding dump_checked
  Keeps-dump_checked again a failure n ed h = record { nodes = refl; children = refl }
  Keeps-dump_checked again a success n ed h =
      let k = h (print ed (delete_record ed.opts n)) (replaced n) in
      let same : (replaced n).children ≡ n.children = unfold replaced in refl in
      let rest = Keeps-dump_record a ed n in
      record {
        nodes = ground (arith, k.nodes, rest.nodes);
        children = ground (arith, k.children, same, rest.children);
      }

  Keeps-dump_call :
      (again : Editor → Node → Status × Node × Editor) (a : ℕ) (ed : Editor) (n : Node)
      → ((e : Editor) (m : Node) → Keeps e m (again e m))
      → Keeps ed n (dump_call again a ed n)
  unfolding dump_call
  Keeps-dump_call again a ed n h =
      let checked = Keeps-delta_check_action ed (delta_check_copy ed n) in
      let (s, n', ed') = delta_check_action ed (delta_check_copy ed n) in
      let d = Keeps-dump_checked again a s n' ed' h in
      let same = children-delta_check_copy ed n in
      record {
        nodes = ground (arith, d.nodes, checked.nodes);
        children = ground (arith, d.children, checked.children, same);
      }

  Keeps-dump_calls : (k a : ℕ) (ed : Editor) (n : Node) → Keeps ed n (dump_calls k a ed n)
  unfolding dump_calls
  Keeps-dump_calls zero a ed n = record { nodes = refl; children = refl }
  Keeps-dump_calls (suc k) a ed n = Keeps-dump_call (dump_calls k a) a ed n (Keeps-dump_calls k a)

  pub Keeps-delta_dump_node : (a : ℕ) (ed : Editor) (n : Node) → Keeps ed n (delta_dump_node a ed n)
  unfolding delta_dump_node
  Keeps-delta_dump_node a ed n = Keeps-dump_calls 2 a ed n
