-- ===== src/Dump/Loop/Numbers.antt =====
-- The revision numbers that a round of the loop leaves.
use rsvndump.Base.{
  Status-cases, ℕ, zero, suc, ◌+◌, ◌-◌, ◌≤◌, pos, incz, eqz, ◌≡◌, refl, ap, sym, ◌∙◌, Bool, true,
  false, not, ◌&&◌, if◌then◌else◌, ◌++◌, Status, success, failure, arith, inl, inr, Bool-cases,
}
use rsvndump.Apr.{AprHash, AprStrings}
use rsvndump.Critbit.{Critbit}
use rsvndump.Snappy.{Snappy}
use rsvndump.Svn.{DumpNames}
use rsvndump.Log.{LogRevision}
use rsvndump.PathRepo.Edit.{path_repo_commit}
use rsvndump.Property.Store.{property_storage_cleanup}
use rsvndump.Dump.Loop.{
  ltz, Differ, DumpState, diff_base, set_up_prefix, pad_revision, pad_revisions, distance, pad,
  dump_header, commit_round, finish_round, dump_diff, dump_round,
}

incz_if :
    (k : Bool) (a b : ℕ)
    → incz (if k then pos b else pos a) ≡ (if k then pos (b + 1) else pos (a + 1))
incz_if true a b = refl
incz_if false a b = refl

module _ ⦃names : DumpNames⦄ ⦃apr : AprHash⦄ ⦃strings : AprStrings⦄ ⦃cb : Critbit⦄
    ⦃sn : Snappy⦄ where
  local_rev-set_up_prefix : (st : DumpState) → (set_up_prefix st).local_rev ≡ st.local_rev
  unfolding set_up_prefix
  local_rev-set_up_prefix st = elim (Bool-cases (eqz st.local_rev (pos 1))) [
    | inl e ↦ rw (set_up_prefix, e) refl
    | inr e ↦ rw (set_up_prefix, e) refl
  ]

  local_rev-pad_revision :
      (st : DumpState)
      → (pad_revision st).0 ≡ success
      → (pad_revision st).1.local_rev ≡ incz st.local_rev
  unfolding pad_revision
  local_rev-pad_revision st ok = elim (Status-cases (path_repo_commit st.repo st.local_rev).0) [
    | inl e ↦ rw (pad_revision, e) (ap incz (local_rev-set_up_prefix _))
    | inr e ↦
        let bad : (pad_revision st).0 ≡ failure = rw (pad_revision, e) refl in
        absurd (ground (arith, bad, ok))
  ]

  -- Padding, as far as it succeeds, ends at the number.
  local_rev-pad_revisions :
      (fuel : ℕ) (st : DumpState) (a b : ℕ)
      → st.local_rev ≡ pos a
      → a + fuel ≡ b
      → (pad_revisions fuel st (pos b)).0 ≡ success
      → (pad_revisions fuel st (pos b)).1.local_rev ≡ pos b
  unfolding pad_revisions
  local_rev-pad_revisions zero st a b at sum ok = at ∙ ap pos (omega arith)
  local_rev-pad_revisions (suc fuel) st a b at sum ok =
      let before : ltz st.local_rev (pos b) ≡ true = rw at (ground arith) in
      elim (Status-cases (pad_revision st).0) [
        | inl e ↦
            let step : pad_revisions (suc fuel) st (pos b)
                ≡ pad_revisions fuel (pad_revision st).1 (pos b) =
              rw (pad_revisions, before) (rw e refl) in
            let next : (pad_revision st).1.local_rev ≡ pos (a + 1) =
              local_rev-pad_revision st e ∙ ap incz at in
            rw step (
              local_rev-pad_revisions fuel (pad_revision st).1 (a + 1) b next (omega arith)
                (rw (← step) ok))
        | inr e ↦
            let bad : (pad_revisions (suc fuel) st (pos b)).0 ≡ failure =
              rw (pad_revisions, before) (rw e refl) in
            absurd (ground (arith, bad, ok))
      ]

  -- whether the round pads: numbers are kept, and it is not dry
  abbrev pub pads : DumpState → Bool
  pads st = st.opts.flags.keep_revnums && not st.opts.flags.initial_dry_run

  local_rev-pad :
      (st : DumpState) (log : LogRevision) (a b : ℕ)
      → st.local_rev ≡ pos a
      → log.revision ≡ pos b
      → a ≤ b
      → (pad st log).0 ≡ success
      → (pad st log).1.local_rev ≡ (if pads st then pos b else pos a)
  unfolding pad
  local_rev-pad st log a b at to h ok = elim (Bool-cases (pads st)) [
    | inl e ↦
        let fuel : distance st.local_rev (pos b) ≡ b - a = unfold distance in rw at refl in
        let same : pad st log ≡ pad_revisions (b - a) st (pos b) =
          rw (pad, e, to) (ap (λ f. pad_revisions f st (pos b)) fuel) in
        ap (λ (x : Status × DumpState). x.1.local_rev) same
        ∙ local_rev-pad_revisions (b - a) st a b at (omega arith)
            (sym (ap (λ (x : Status × DumpState). x.0) same) ∙ ok)
        ∙ rw e refl
    | inr e ↦
        let same : pad st log ≡ (success, st) = rw (pad, e) refl in
        ap (λ (x : Status × DumpState). x.1.local_rev) same ∙ at ∙ rw e refl
  ]

  local_rev-dump_header :
      (st : DumpState) (log : LogRevision) → (dump_header st log).local_rev ≡ st.local_rev
  unfolding dump_header
  local_rev-dump_header st log = elim (Bool-cases st.opts.flags.initial_dry_run) [
    | inl e ↦ simp (dump_header, e) refl
    | inr e ↦ simp (dump_header, e) (local_rev-set_up_prefix _)
  ]

  -- What a round that succeeds leaves: the next number in the dump, and the next one of the source.
  pub local_rev-dump_diff :
      ⦃differ : Differ⦄ (st : DumpState) (log : LogRevision)
      → (dump_diff st log).0 ≡ success
      → ((dump_diff st log).1.local_rev ≡ incz st.local_rev)
        × ((dump_diff st log).1.global_rev ≡ incz log.revision)
        × ((dump_diff st log).1.opts.flags.initial_dry_run ≡ false)
  unfolding dump_diff commit_round finish_round
  local_rev-dump_diff ⦃differ⦄ st log ok =
      let r =
        differ.do_diff st.opts (diff_base st.opts st.global_rev) log st.local_rev
          (eqz st.global_rev st.opts.start) st.logs st.repo st.storage in
      let st1 = record st { repo = r.2; storage = r.3; out = st.out ++ r.1 } in
      let c = commit_round st1 in
      let k = property_storage_cleanup c.1.storage in
      elim (Status-cases r.0) [
        | inr e ↦
            let bad : (dump_diff st log).0 ≡ failure = rw (dump_diff, e) refl in
            absurd (ground (arith, bad, ok))
        | inl e ↦ elim (Status-cases c.0) [
          | inr f ↦
              let bad : (dump_diff st log).0 ≡ failure = rw (dump_diff, e) (rw f refl) in
              absurd (ground (arith, bad, ok))
          | inl f ↦ elim (Status-cases k.0) [
            | inr g ↦
                let bad : (dump_diff st log).0 ≡ failure = rw (dump_diff, e) (rw f (rw g refl)) in
                absurd (ground (arith, bad, ok))
            | inl g ↦ rw (dump_diff, e) (rw f (rw g (refl, refl, refl)))
          ]
        ]
      ]

  -- A round that succeeds, from a local number not beyond the revision of its log: the next local
  -- number is one more than that revision if numbers are kept and the round is not dry, which is
  -- where padding ends, and else one more than before. The next round asks for the revision after
  -- that of the log, and is not dry, whether this one was or not.
  pub local_rev-dump_round :
      ⦃differ : Differ⦄ (st : DumpState) (log : LogRevision) (a b : ℕ)
      → st.local_rev ≡ pos a
      → log.revision ≡ pos b
      → a ≤ b
      → (dump_round st log).0 ≡ success
      → ((dump_round st log).1.local_rev ≡ (
          if st.opts.flags.keep_revnums && not st.opts.flags.initial_dry_run
          then pos (b + 1)
          else pos (a + 1)))
        × ((dump_round st log).1.global_rev ≡ pos (b + 1))
        × ((dump_round st log).1.opts.flags.initial_dry_run ≡ false)
  unfolding dump_round
  local_rev-dump_round st log a b at to h ok = elim (Status-cases (pad st log).0) [
    | inr e ↦
        let bad : (dump_round st log).0 ≡ failure = rw (dump_round, e) refl in
        absurd (ground (arith, bad, ok))
    | inl e ↦
        let st1 = dump_header (pad st log).1 log in
        let same : dump_round st log ≡ dump_diff st1 log = rw (dump_round, e) refl in
        let d =
          local_rev-dump_diff st1 log (sym (ap (λ (x : Status × DumpState). x.0) same) ∙ ok) in
        let p = local_rev-dump_header (pad st log).1 log ∙ local_rev-pad st log a b at to h e in
        let n = incz_if (pads st) a b in
        (
          ap (λ (x : Status × DumpState). x.1.local_rev) same ∙ d.0 ∙ ap incz p ∙ n,
          ap (λ (x : Status × DumpState). x.1.global_rev) same ∙ d.1 ∙ ap incz to,
          ap (λ (x : Status × DumpState). x.1.opts.flags.initial_dry_run) same ∙ d.2,
        )
  ]
