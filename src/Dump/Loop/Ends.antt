-- ===== src/Dump/Loop/Ends.antt =====
-- The last revision of the options, which the rounds of the loop keep.
use rsvndump.Base.{
  Status-cases, ℕ, zero, suc, ℤ, pos, eqz, incz, ◌≡◌, refl, ap, sym, ◌∙◌, Option-cases, Status,
  success, failure, arith, inl, inr, Bool-cases, ◌++◌,
}
use rsvndump.Apr.{AprHash, AprStrings}
use rsvndump.Critbit.{Critbit}
use rsvndump.Snappy.{Snappy}
use rsvndump.Svn.{DumpNames}
use rsvndump.Log.{LogRevision}
use rsvndump.Options.{DumpOptions}
use rsvndump.PathRepo.Edit.{path_repo_commit}
use rsvndump.Property.Store.{property_storage_cleanup}
use rsvndump.Dump.Records.{dump_create_user_prefix}
use rsvndump.Dump.Loop.{
  ltz, Differ, DumpState, diff_base, set_up_prefix, pad_revision, pad_revisions, distance, pad,
  dump_header, commit_round, finish_round, dump_diff, dump_round,
}
use rsvndump.Dump.Loop.Numbers.{local_rev-dump_diff}

module _ ⦃names : DumpNames⦄ where
  end-dump_create_user_prefix :
      (opts : DumpOptions) → (dump_create_user_prefix opts).1.end ≡ opts.end
  unfolding dump_create_user_prefix
  end-dump_create_user_prefix opts = elim (Option-cases opts.prefix) [
    | inl e ↦ simp (dump_create_user_prefix, e) refl
    | inr (old, e) ↦ simp (dump_create_user_prefix, e) refl
  ]

module _ ⦃names : DumpNames⦄ ⦃apr : AprHash⦄ ⦃strings : AprStrings⦄ ⦃cb : Critbit⦄
    ⦃sn : Snappy⦄ where
  end-set_up_prefix : (st : DumpState) → (set_up_prefix st).opts.end ≡ st.opts.end
  unfolding set_up_prefix
  end-set_up_prefix st = elim (Bool-cases (eqz st.local_rev (pos 1))) [
    | inl e ↦ rw (set_up_prefix, e) (end-dump_create_user_prefix st.opts)
    | inr e ↦ rw (set_up_prefix, e) refl
  ]

  end-pad_revision : (st : DumpState) → (pad_revision st).1.opts.end ≡ st.opts.end
  unfolding pad_revision
  end-pad_revision st = elim (Status-cases (path_repo_commit st.repo st.local_rev).0) [
    | inl e ↦ rw (pad_revision, e) (search end-set_up_prefix)
    | inr e ↦ rw (pad_revision, e) refl
  ]

  end-pad_revisions :
      (fuel : ℕ) (st : DumpState) (to : ℤ) → (pad_revisions fuel st to).1.opts.end ≡ st.opts.end
  unfolding pad_revisions
  end-pad_revisions zero st to = refl
  end-pad_revisions (suc fuel) st to = elim (Bool-cases (ltz st.local_rev to)) [
    | inr e ↦ rw (pad_revisions, e) refl
    | inl e ↦ elim (Status-cases (pad_revision st).0) [
      | inr f ↦ rw (pad_revisions, e) (rw f (end-pad_revision st))
      | inl f ↦
          rw (pad_revisions, e)
            (rw f (end-pad_revisions fuel (pad_revision st).1 to ∙ end-pad_revision st))
    ]
  ]

  end-pad : (st : DumpState) (log : LogRevision) → (pad st log).1.opts.end ≡ st.opts.end
  unfolding pad
  end-pad st log = elim (Bool-cases st.opts.flags.keep_revnums) [
    | inr e ↦ simp (pad, e) refl
    | inl e ↦ elim (Bool-cases st.opts.flags.initial_dry_run) [
      | inl f ↦ simp (pad, e, f) refl
      | inr f ↦
          let fuel = distance st.local_rev log.revision in
          let same : pad st log ≡ pad_revisions fuel st log.revision = simp (pad, e, f) refl in
          ap (λ (x : Status × DumpState). x.1.opts.end) same
          ∙ end-pad_revisions fuel st log.revision
    ]
  ]

  end-dump_header :
      (st : DumpState) (log : LogRevision) → (dump_header st log).opts.end ≡ st.opts.end
  unfolding dump_header
  end-dump_header st log = elim (Bool-cases st.opts.flags.initial_dry_run) [
    | inl e ↦ simp (dump_header, e) refl
    | inr e ↦ simp (dump_header, e) (search end-set_up_prefix)
  ]

  end-dump_diff :
      ⦃differ : Differ⦄ (st : DumpState) (log : LogRevision)
      → (dump_diff st log).1.opts.end ≡ st.opts.end
  unfolding dump_diff commit_round finish_round
  end-dump_diff ⦃differ⦄ st log =
      let r =
        differ.do_diff st.opts (diff_base st.opts st.global_rev) log st.local_rev
          (eqz st.global_rev st.opts.start) st.logs st.repo st.storage in
      let st1 = record st { repo = r.2; storage = r.3; out = st.out ++ r.1 } in
      let c = commit_round st1 in
      let k = property_storage_cleanup c.1.storage in
      elim (Status-cases r.0) [
        | inr e ↦ rw (dump_diff, e) refl
        | inl e ↦ elim (Status-cases c.0) [
          | inr f ↦ rw (dump_diff, e) (rw f refl)
          | inl f ↦ elim (Status-cases k.0) [
            | inr g ↦ rw (dump_diff, e) (rw f (rw g refl))
            | inl g ↦ rw (dump_diff, e) (rw f (rw g refl))
          ]
        ]
      ]

  -- A round that succeeds keeps the last revision, and goes on after that of its log.
  pub end-dump_round :
      ⦃differ : Differ⦄ (st : DumpState) (log : LogRevision)
      → (dump_round st log).0 ≡ success
      → ((dump_round st log).1.opts.end ≡ st.opts.end)
        × ((dump_round st log).1.global_rev ≡ incz log.revision)
  unfolding dump_round
  end-dump_round st log ok = elim (Status-cases (pad st log).0) [
    | inr e ↦
        let bad : (dump_round st log).0 ≡ failure = rw (dump_round, e) refl in
        absurd (ground (arith, bad, ok))
    | inl e ↦
        let st1 = dump_header (pad st log).1 log in
        let same : dump_round st log ≡ dump_diff st1 log = rw (dump_round, e) refl in
        (
          ap (λ (x : Status × DumpState). x.1.opts.end) same
              ∙ end-dump_diff st1 log
              ∙ end-dump_header (pad st log).1 log
              ∙ end-pad st log,
          ap (λ (x : Status × DumpState). x.1.global_rev) same
              ∙ (local_rev-dump_diff st1 log
                  (sym (ap (λ (x : Status × DumpState). x.0) same) ∙ ok)).1,
        )
  ]
