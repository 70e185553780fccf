-- ===== src/Delta/Copies/Levels.antt =====
-- Which children delta_propagate_copy() of src/delta.c takes as copied with their parent, by the
-- history of the path repository.
use rsvndump.Base.{
  ℕ, ◌<◌, Text, pos, starts_with, ◌≡◌, ◌↔◌, refl, ap, sym, ◌∙◌, subst, Bool, true, false, ◌==◌,
  some, [], ◌∷◌, ◌++◌, append_assoc, success, arith, Bool-cases, inl, inr,
}
use rsvndump.Apr.{AprHash, AprStrings}
use rsvndump.Critbit.{Critbit}
use rsvndump.Snappy.{Snappy}
use rsvndump.Files.{Files}
use rsvndump.Session.{Obfuscation}
use rsvndump.PathRepo.{PathRepo, Answer, present, absent}
use rsvndump.PathRepo.Codec.RoundTrip.{PathSet}
use rsvndump.PathRepo.History.{IsHistory}
use rsvndump.PathRepo.Edit.{path_repo_check_parent}
use rsvndump.PathRepo.Edit.Query.{shown, path_repo_exists-hist}
use rsvndump.Delta.CopyFrom.{delta_get_local_copyfrom_path, delta_get_local_copyfrom_rev}
use rsvndump.Delta.Node.{Node, Editor, CopyInfo, copied, parents}
use rsvndump.Delta.Copies.{
  before_slash, check_levels, relative_path, find_source, copy_if_present, propagate_levels,
  propagate_from, delta_propagate_copy,
}

-- After `start`: at each slash of the path, the set has what ends with the component after it.
abbrev pub LevelsIn : PathSet → Text → Text → Type 0
LevelsIn set start path =
    (x s : Text) → path ≡ x ++ (b'/' ∷ s) → set (start ++ (x ++ (b'/' ∷ before_slash s))) ≡ true

module _ (set : PathSet) where
  shift : (start : Text) (c : ℕ) (t : Text) → (start ++ c ∷ []) ++ t ≡ start ++ c ∷ t
  shift start c t = append_assoc start (c ∷ []) t

  LevelsIn-cons :
      (c : ℕ) (start rest : Text)
      → LevelsIn set (start ++ c ∷ []) rest
      → (c ≡ b'/' → set (start ++ (b'/' ∷ before_slash rest)) ≡ true)
      → LevelsIn set start (c ∷ rest)
  LevelsIn-cons c start rest h head [] s eq =
      let same : rest ≡ s = cc in
      subst (λ (t : Text). set (start ++ (b'/' ∷ before_slash t)) ≡ true) same (head cc)
  LevelsIn-cons c start rest h head (d ∷ x) s eq =
      let same : c ≡ d = cc in
      let tail : rest ≡ x ++ (b'/' ∷ s) = cc in
      subst (λ (i : ℕ). set (start ++ i ∷ (x ++ (b'/' ∷ before_slash s))) ≡ true) same
        (subst (λ (t : Text). set t ≡ true) (shift start c (x ++ (b'/' ∷ before_slash s)))
          (h x s tail))

  LevelsIn-tail :
      (c : ℕ) (start rest : Text)
      → LevelsIn set start (c ∷ rest)
      → LevelsIn set (start ++ c ∷ []) rest
  LevelsIn-tail c start rest h x s eq =
      subst (λ (t : Text). set t ≡ true) (sym (shift start c (x ++ (b'/' ∷ before_slash s))))
        (h (c ∷ x) s (ap (λ t. c ∷ t) eq))

  LevelsIn-empty : (start : Text) → LevelsIn set start []
  LevelsIn-empty start [] s eq = cc
  LevelsIn-empty start (c ∷ x) s eq = cc

module _ ⦃apr : AprHash⦄ ⦃strings : AprStrings⦄ ⦃cb : Critbit⦄ ⦃sn : Snappy⦄ where
  -- What the check of the levels answers and leaves.
  record Checked (x : Answer × PathRepo) (hist : ℕ → PathSet) (n r : ℕ) (start rest : Text)
      : Type 0 where
    pub all : Bool
    pub answers : x.0 ≡ shown all
    pub levels : (all ≡ true) ↔ LevelsIn (hist r) start rest
    pub kept : IsHistory x.1 hist n

  Checked-check_levels :
      (rest start : Text) (repo : PathRepo) (hist : ℕ → PathSet) (n r : ℕ)
      → IsHistory repo hist n
      → r < n
      → Checked (check_levels (pos r) rest start repo) hist n r start rest
  unfolding check_levels
  Checked-check_levels [] start repo hist n r i lt = record {
    all = true;
    answers = refl;
    levels = ((λ e. LevelsIn-empty (hist r) start), (λ h. refl));
    kept = i;
  }
  Checked-check_levels (c ∷ rest) start repo hist n r i lt = elim (Bool-cases (c == b'/')) [
    | inr e ↦
        let k = Checked-check_levels rest (start ++ c ∷ []) repo hist n r i lt in
        rw (e, check_levels)
          (record {
            all = k.all;
            answers = k.answers;
            levels = (
              (λ t.
                  LevelsIn-cons (hist r) c start rest (k.levels.0 t)
                    (λ s. absurd (ground (arith, e, s)))),
              (λ h. k.levels.1 (LevelsIn-tail (hist r) c start rest h)),
            );
            kept = k.kept;
          })
    | inl e ↦
        let child = before_slash rest in
        let (here, kept, asked, kept') = path_repo_exists-hist repo hist n r [] start child i lt in
        let repo' = (path_repo_check_parent repo start child (pos r)).1 in
        let slash : c ≡ b'/' = ground (arith, e) in
        elim (Bool-cases (hist r (start ++ (b'/' ∷ child)))) [
          | inl there ↦
              let k = Checked-check_levels rest (start ++ c ∷ []) repo' hist n r kept' lt in
              let yes : (path_repo_check_parent repo start child (pos r)).0 ≡ present =
                asked ∙ ap shown there in
              rw (e, yes, check_levels)
                (record {
                  all = k.all;
                  answers = k.answers;
                  levels = (
                    (λ t. LevelsIn-cons (hist r) c start rest (k.levels.0 t) (λ s. there)),
                    (λ h. k.levels.1 (LevelsIn-tail (hist r) c start rest h)),
                  );
                  kept = k.kept;
                })
          | inr missing ↦
              let no : (path_repo_check_parent repo start child (pos r)).0 ≡ absent =
                asked ∙ ap shown missing in
              rw (e, no, check_levels)
                (record {
                  all = false;
                  answers = refl;
                  levels = (
                    (λ t. cc),
                    (λ h.
                        let there : hist r (start ++ (c ∷ child)) ≡ true =
                          subst (λ (i : ℕ). hist r (start ++ (i ∷ child)) ≡ true) (sym slash)
                            (h [] rest (ap (λ i. i ∷ rest) slash)) in
                        absurd (ground (arith, there, missing, slash))),
                  );
                  kept = kept';
                })
        ]
  ]

  -- the copy information by the answer
  copied-copy_if_present :
      (all : Bool) (info : CopyInfo)
      → ((copy_if_present (shown all) info).0 ≡ success)
        × (copied (copy_if_present (shown all) info).1 ≡ all)
  unfolding copy_if_present copied
  copied-copy_if_present true info = (refl, refl)
  copied-copy_if_present false info = (refl, refl)

module _ ⦃apr : AprHash⦄ ⦃strings : AprStrings⦄ ⦃cb : Critbit⦄ ⦃sn : Snappy⦄ ⦃obf : Obfuscation⦄
    ⦃files : Files⦄ where
  -- The parent `p` of `c` is copied, and `source` is the nearest node from `p` upwards that has a
  -- source; it comes from `path` at a committed revision. Then delta_propagate_copy() succeeds, and
  -- `c` is taken as copied exactly where that revision had, at every slash of the child's path
  -- under the source, the path up to the end of the component after it. The history is kept.
  pub delta_propagate_copy-LevelsIn :
      (ed : Editor) (p c source : Node) (from path : Text) (hist : ℕ → PathSet) (n r : ℕ)
      → copied p.cp_info ≡ true
      → starts_with p.path c.path ≡ true
      → find_source (p ∷ parents ed p) ≡ some (source, from)
      → delta_get_local_copyfrom_path ed.session.prefix from ≡ some path
      → delta_get_local_copyfrom_rev source.copyfrom_revision ed.opts ed.logs ≡ pos r
      → IsHistory ed.path_repo hist n
      → r < n
      → ((delta_propagate_copy ed p c).0 ≡ success)
        × ((copied (delta_propagate_copy ed p c).1.cp_info ≡ true)
            ↔ LevelsIn (hist r) [] (path ++ (b'/' ∷ relative_path c.path source.path)))
        × IsHistory (delta_propagate_copy ed p c).2.path_repo hist n
  unfolding delta_propagate_copy propagate_from propagate_levels
  delta_propagate_copy-LevelsIn ed p c source from path hist n r is_copy below found local rev i
        lt =
      let check_path = path ++ (b'/' ∷ relative_path c.path source.path) in
      let k = Checked-check_levels check_path [] ed.path_repo hist n r i lt in
      let info = copied-copy_if_present k.all c.cp_info in
      rw (is_copy, below, found, local, rev, k.answers) (info.0, rw info.1 k.levels, k.kept)
