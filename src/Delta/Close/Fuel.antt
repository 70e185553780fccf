-- ===== src/Delta/Close/Fuel.antt =====
-- delta_dump_node_recursive() of src/delta.c ends: its recursion is no deeper than there are nodes.
use native.Mathlib.Decide.{dec_lt}
use rsvndump.Base.{
  Status-cases, get_elem?, none, ℕ, zero, suc, ◌+◌, ◌<◌, ◌≡◌, refl, sym, ◌≤◌, subst, ◌==◌, some,
  List, [], ◌∷◌, length, All, Status, success, failure, arith, Option-cases, Bool-cases, inl, inr,
}
use rsvndump.Apr.{AprHash, AprStrings}
use rsvndump.Critbit.{Critbit}
use rsvndump.Snappy.{Snappy}
use rsvndump.Svn.{DumpNames, SvnCalls}
use rsvndump.Files.{Files}
use rsvndump.Session.{Obfuscation}
use rsvndump.Delta.Node.{Node, Editor, node_at, put_node}
use rsvndump.Delta.Copies.{delta_propagate_copy}
use rsvndump.Delta.Record.{delta_dump_node}
use rsvndump.Delta.Forest.{
  IsForest, SameTree, SameTree-refl, SameTree-trans, SameTree-IsForest, SameTree-set, IsForest-at,
}
use rsvndump.Delta.Record.Checked.{Keeps, Keeps-delta_propagate_copy}
use rsvndump.Delta.Record.Kept.{Keeps-delta_dump_node}
use rsvndump.Delta.Close.{
  dump_at, propagate_at, dump_children, dump_before, dump_after, dump_recursive,
  delta_dump_node_recursive,
}

-- A node as a whole, or what is left of the children of a node.
pub data Task : Type 0 where
  whole_node : ℕ → Task
  below_node : ℕ → List ℕ → Task

module _ ⦃apr : AprHash⦄ ⦃cb : Critbit⦄ ⦃obf : Obfuscation⦄ ⦃files : Files⦄ where
  -- The tree of nodes is the same after a step.
  abbrev pub SameNodes : Editor → Status × Editor → Type 0
  SameNodes ed x = SameTree ed.nodes x.1.nodes

  -- A node goes back to its address.
  pub SameTree-put_node :
      (ed : Editor) (a : ℕ) (n : Node) (x : Status × Node × Editor)
      → node_at ed a ≡ some n
      → Keeps ed n x
      → SameTree ed.nodes (put_node x.2 a x.1).nodes
  SameTree-put_node ed a n x e k = rw k.nodes (SameTree-set ed.nodes a n x.1 e k.children)

module _ ⦃names : DumpNames⦄ ⦃apr : AprHash⦄ ⦃strings : AprStrings⦄ ⦃cb : Critbit⦄ ⦃sn : Snappy⦄
    ⦃obf : Obfuscation⦄ ⦃files : Files⦄ ⦃svn : SvnCalls⦄ where
  SameNodes-dump_at : (a : ℕ) (ed : Editor) → SameNodes ed (dump_at a ed)
  unfolding dump_at
  SameNodes-dump_at a ed = elim (Option-cases (node_at ed a)) [
    | inl e ↦ rw (e, dump_at) (SameTree-refl ed.nodes)
    | inr (n, e) ↦
        rw (e, dump_at)
          (SameTree-put_node ed a n (delta_dump_node a ed n) e (Keeps-delta_dump_node a ed n))
  ]

  SameNodes-propagate_at : (a c : ℕ) (ed : Editor) → SameNodes ed (propagate_at a c ed)
  unfolding propagate_at
  SameNodes-propagate_at a c ed = elim (Option-cases (node_at ed a)) [
    | inl e ↦ rw (e, propagate_at) (SameTree-refl ed.nodes)
    | inr (p, e) ↦ elim (Option-cases (node_at ed c)) [
      | inl e' ↦ rw (e, e', propagate_at) (SameTree-refl ed.nodes)
      | inr (n, e') ↦
          rw (e, e', propagate_at)
            (SameTree-put_node ed c n (delta_propagate_copy ed p n) e'
              (Keeps-delta_propagate_copy ed p n))
    ]
  ]

  SameNodes-dump_before : (a : ℕ) (n : Node) (ed : Editor) → SameNodes ed (dump_before a n ed)
  unfolding dump_before
  SameNodes-dump_before a n ed = elim (Bool-cases (n.action == b'D')) [
    | inl e ↦ rw e (SameTree-refl ed.nodes)
    | inr e ↦ rw e (SameNodes-dump_at a ed)
  ]

  SameNodes-dump_after : (a : ℕ) (ed : Editor) → SameNodes ed (dump_after a ed)
  unfolding dump_after
  SameNodes-dump_after a ed = elim (Option-cases (node_at ed a)) [
    | inl e ↦ rw (e, dump_after) (SameTree-refl ed.nodes)
    | inr (n, e) ↦ elim (Bool-cases (n.action == b'D')) [
      | inl d ↦ rw (e, d, dump_after) (SameNodes-dump_at a ed)
      | inr d ↦ rw (e, d, dump_after) (SameTree-refl ed.nodes)
    ]
  ]

  -- A step, and what follows it where it does not fail.
  abbrev pub then_step : Status × Editor → (Editor → Status × Editor) → Status × Editor
  then_step x f = elim x.0 [ failure ↦ (failure, x.1) | success ↦ f x.1 ]

  SameNodes-then_step :
      (ed : Editor) (x : Status × Editor) (f : Editor → Status × Editor)
      → SameNodes ed x
      → ((e : Editor) → SameNodes e (f e))
      → SameNodes ed (then_step x f)
  SameNodes-then_step ed (failure, e) f h k = h
  SameNodes-then_step ed (success, e) f h k = SameTree-trans ed.nodes e.nodes (f e).1.nodes h (k e)

  SameNodes-dump_children :
      (step : ℕ → Editor → Status × Editor) (a : ℕ) (cs : List ℕ) (ed : Editor)
      → ((c : ℕ) (e : Editor) → SameNodes e (step c e))
      → SameNodes ed (dump_children step a cs ed)
  unfolding dump_children
  SameNodes-dump_children step a [] ed h = SameTree-refl ed.nodes
  SameNodes-dump_children step a (c ∷ cs) ed h =
      SameNodes-then_step ed (propagate_at a c ed)
        (λ e1. then_step (step c e1) (dump_children step a cs)) (SameNodes-propagate_at a c ed)
        λ e1.
          SameNodes-then_step e1 (step c e1) (dump_children step a cs) (h c e1)
            λ e2. SameNodes-dump_children step a cs e2 h

  SameNodes-dump_recursive : (fuel a : ℕ) (ed : Editor) → SameNodes ed (dump_recursive fuel a ed)
  unfolding dump_recursive
  SameNodes-dump_recursive zero a ed = SameTree-refl ed.nodes
  SameNodes-dump_recursive (suc fuel) a ed = elim (Option-cases (node_at ed a)) [
    | inl e ↦ rw (e, dump_recursive) (SameTree-refl ed.nodes)
    | inr (n, e) ↦
        rw (e, dump_recursive)
          (SameNodes-then_step ed (dump_before a n ed)
            (λ e1. then_step (dump_children (dump_recursive fuel) a n.children e1) (dump_after a))
            (SameNodes-dump_before a n ed)
            λ e1.
              SameNodes-then_step e1 (dump_children (dump_recursive fuel) a n.children e1)
                (dump_after a)
                (SameNodes-dump_children (dump_recursive fuel) a n.children e1
                  (SameNodes-dump_recursive fuel))
                (SameNodes-dump_after a))
  ]

  -- What delta_dump_node_recursive() does to the node at `a`, and to what is left of its children,
  -- step by step, with what it returns. A derivation is finite, however deep the nodes are.
  pub data Dumps : Task → Editor → Status × Editor → Type 0 where
    dangling : (a : ℕ) (ed : Editor) → node_at ed a ≡ none → Dumps (whole_node a) ed (failure, ed)
    before_failed :
        (a : ℕ) (ed : Editor) (n : Node)
        → node_at ed a ≡ some n
        → (dump_before a n ed).0 ≡ failure
        → Dumps (whole_node a) ed (failure, (dump_before a n ed).1)
    below_failed :
        (a : ℕ) (ed ed' : Editor) (n : Node)
        → node_at ed a ≡ some n
        → (dump_before a n ed).0 ≡ success
        → Dumps (below_node a n.children) (dump_before a n ed).1 (failure, ed')
        → Dumps (whole_node a) ed (failure, ed')
    dumped :
        (a : ℕ) (ed ed' : Editor) (n : Node)
        → node_at ed a ≡ some n
        → (dump_before a n ed).0 ≡ success
        → Dumps (below_node a n.children) (dump_before a n ed).1 (success, ed')
        → Dumps (whole_node a) ed (dump_after a ed')
    no_more : (a : ℕ) (ed : Editor) → Dumps (below_node a []) ed (success, ed)
    not_propagated :
        (a c : ℕ) (cs : List ℕ) (ed : Editor)
        → (propagate_at a c ed).0 ≡ failure
        → Dumps (below_node a (c ∷ cs)) ed (failure, (propagate_at a c ed).1)
    child_failed :
        (a c : ℕ) (cs : List ℕ) (ed ed' : Editor)
        → (propagate_at a c ed).0 ≡ success
        → Dumps (whole_node c) (propagate_at a c ed).1 (failure, ed')
        → Dumps (below_node a (c ∷ cs)) ed (failure, ed')
    child_dumped :
        (a c : ℕ) (cs : List ℕ) (ed ed' : Editor) (x : Status × Editor)
        → (propagate_at a c ed).0 ≡ success
        → Dumps (whole_node c) (propagate_at a c ed).1 (success, ed')
        → Dumps (below_node a cs) ed' x
        → Dumps (below_node a (c ∷ cs)) ed x

  -- Where the step does what is meant to be done with each child, so does the loop over them.
  Dumps-children :
      (f : ℕ → Editor → Status × Editor) (a n : ℕ) (cs : List ℕ) (ed : Editor)
      → ((c : ℕ) (e : Editor) → SameNodes e (f c e))
      → ((c : ℕ) (e : Editor)
          → a < c
          → c < n
          → SameTree ed.nodes e.nodes
          → Dumps (whole_node c) e (f c e))
      → All (λ c. (a < c) × (c < n)) cs
      → Dumps (below_node a cs) ed (dump_children f a cs ed)
  unfolding dump_children
  Dumps-children f a n [] ed same goes h = no_more a ed
  Dumps-children f a n (c ∷ cs) ed same goes h =
      let e1 = (propagate_at a c ed).1 in
      let s1 = SameNodes-propagate_at a c ed in
      let e2 = (f c e1).1 in
      let here : Dumps (whole_node c) e1 (f c e1) = goes c e1 h.0.0 h.0.1 s1 in
      elim (Status-cases (propagate_at a c ed).0) [
        | inr bad ↦ rw (dump_children, bad) (not_propagated a c cs ed bad)
        | inl ok ↦ elim (Status-cases (f c e1).0) [
          | inr bad ↦
              let there = subst (λ s. Dumps (whole_node c) e1 (s, e2)) bad here in
              rw (dump_children, ok) (rw bad (child_failed a c cs ed e2 ok there))
          | inl good ↦
              let there = subst (λ s. Dumps (whole_node c) e1 (s, e2)) good here in
              let s2 = SameTree-trans ed.nodes e1.nodes e2.nodes s1 (same c e1) in
              let rest : Dumps (below_node a cs) e2 (dump_children f a cs e2) =
                Dumps-children f a n cs e2 same
                  (λ d e lo hi s. goes d e lo hi (SameTree-trans ed.nodes e2.nodes e.nodes s2 s))
                  h.1 in
              rw (dump_children, ok) (rw good (child_dumped a c cs ed e2 _ ok there rest))
        ]
      ]

  -- Where a child comes after its parent, the fuel that is left at an address is enough.
  Dumps-dump_recursive :
      (fuel a : ℕ) (ed : Editor)
      → IsForest ed.nodes
      → length ed.nodes < fuel + a + 1
      → a < length ed.nodes
      → Dumps (whole_node a) ed (dump_recursive fuel a ed)
  unfolding dump_recursive
  Dumps-dump_recursive zero a ed forest h lt = absurd (omega (arith, h, lt))
  Dumps-dump_recursive (suc fuel) a ed forest h lt = elim (Option-cases (node_at ed a)) [
    | inl e ↦ rw (e, dump_recursive) (dangling a ed e)
    | inr (n, e) ↦
        let e1 = (dump_before a n ed).1 in
        let s1 = SameNodes-dump_before a n ed in
        let loop = dump_children (dump_recursive fuel) a n.children e1 in
        let inside : Dumps (below_node a n.children) e1 loop =
          Dumps-children (dump_recursive fuel) a (length ed.nodes) n.children e1
            (SameNodes-dump_recursive fuel)
            (λ c e2 lo hi s2.
              let s = SameTree-trans ed.nodes e1.nodes e2.nodes s1 s2 in
              Dumps-dump_recursive fuel c e2 (SameTree-IsForest ed.nodes e2.nodes s forest)
                (omega (arith, s.size, h, lo)) (omega (arith, s.size, hi)))
            (IsForest-at ed.nodes a n forest e) in
        elim (Status-cases (dump_before a n ed).0) [
          | inr bad ↦ rw (e, dump_recursive) (rw bad (before_failed a ed n e bad))
          | inl ok ↦ elim (Status-cases loop.0) [
            | inr bad ↦
                let there =
                  subst (λ s. Dumps (below_node a n.children) e1 (s, loop.1)) bad inside in
                rw (e, dump_recursive) (rw ok (rw bad (below_failed a ed loop.1 n e ok there)))
            | inl good ↦
                let there =
                  subst (λ s. Dumps (below_node a n.children) e1 (s, loop.1)) good inside in
                rw (e, dump_recursive) (rw ok (rw good (dumped a ed loop.1 n e ok there)))
          ]
        ]
  ]

  no_node : (l : List Node) (a : ℕ) → length l ≤ a → get_elem? l a ≡ none
  no_node [] a h = refl
  no_node (x ∷ l) zero h = absurd (omega (arith, h))
  no_node (x ∷ l) (suc a) h = no_node l a (omega (arith, h))

  -- No node is at the address.
  dump_recursive-none :
      (fuel a : ℕ) (ed : Editor) → length ed.nodes ≤ a → dump_recursive fuel a ed ≡ (failure, ed)
  unfolding dump_recursive
  dump_recursive-none zero a ed h = refl
  dump_recursive-none (suc fuel) a ed h = rw (no_node ed.nodes a h, dump_recursive) refl

  -- Where children come after their parents, delta_dump_node_recursive() ends, and its result is
  -- that of the recursion.
  pub Dumps-delta_dump_node_recursive :
      (a : ℕ) (ed : Editor)
      → IsForest ed.nodes
      → Dumps (whole_node a) ed (delta_dump_node_recursive a ed)
  unfolding delta_dump_node_recursive
  Dumps-delta_dump_node_recursive a ed forest = elim (dec_lt a (length ed.nodes)) [
    | yes lt ↦ Dumps-dump_recursive (length ed.nodes) a ed forest (omega arith) lt
    | no ge ↦
        subst (λ x. Dumps (whole_node a) ed x)
          (sym (dump_recursive-none (length ed.nodes) a ed (omega (arith, ge))))
          (dangling a ed (no_node ed.nodes a (omega (arith, ge))))
  ]
