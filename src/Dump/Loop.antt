-- ===== src/Dump/Loop.antt =====
-- dump() of src/dump.c: the start of the file, and one round of the loop over the revisions. The
-- difference of two revisions, run through the delta editor, is an interface.
pub mod Numbers
pub mod Ends
use rsvndump.Base.{
  ℕ, zero, suc, ◌+◌, ◌-◌, Text, ℤ, pos, negsuc, incz, decz, eqz, lez, Bool, true, false, not, ◌&&◌,
  ◌||◌, ltb, ◌==◌, if◌then◌else◌, Option, none, some, List, [], ◌∷◌, ◌++◌, length, codes, decimal,
  get_elem?, Status, success, failure, ◌>>=◌,
}
use rsvndump.Apr.{AprHash, AprStrings}
use rsvndump.Critbit.{Critbit}
use rsvndump.Snappy.{Snappy}
use rsvndump.Svn.{DumpNames}
use rsvndump.Log.{LogRevision}
use rsvndump.Log.Fetch.{LogServer, log_fetch_single}
use rsvndump.Session.{Obfuscation, Session}
use rsvndump.Options.{Flags, DumpOptions}
use rsvndump.PathRepo.{PathRepo}
use rsvndump.PathRepo.Edit.{path_repo_commit, path_repo_discard}
use rsvndump.Property.Format.{line}
use rsvndump.Property.Store.{PropertyStorage, property_storage_cleanup}
use rsvndump.Dump.Records.{
  field, dump_revision_header, dump_padding_revision, dump_create_user_prefix,
}

-- a < b, on signed numbers
abbrev pub ltz : ℤ → ℤ → Bool
ltz a b = not (lez b a)

module _ ⦃apr : AprHash⦄ ⦃cb : Critbit⦄ where
  -- dump_do_diff() with the editor that delta_setup_editor() gives: from the diff base to the
  -- revision of the log. The nodes are printed; an error is a failure.
  pub record Differ : Type 0 where
    pub do_diff :
        DumpOptions
        → ℤ
        → LogRevision
        → ℤ
        → Bool
        → List LogRevision
        → PathRepo
        → PropertyStorage
        → Status × Text × PathRepo × PropertyStorage

  -- what the loop changes; `out` is what has been printed
  pub record DumpState : Type 0 where
    pub opts : DumpOptions
    pub logs : List LogRevision
    pub local_rev : ℤ
    pub global_rev : ℤ
    pub list_idx : ℤ
    pub repo : PathRepo
    pub storage : PropertyStorage
    pub out : Text

-- "Write dumpfile header"; the last argument is the UUID, `none` if it cannot be fetched
pub write_header : ⦃names : DumpNames⦄ → DumpOptions → Bool → Text → Option Text → Option Text
write_header ⦃names⦄ opts start_mid prefix uuid =
    let magic = line (field names.magic_header (decimal opts.dump_format)) in
    if not opts.flags.no_incremental_header || not start_mid
    then (elim opts.prefix [
      | some p ↦ some magic
      | none ↦
          if length prefix == 0
          then (uuid >>= λ u. some (magic ++ line (line (codes "UUID: " ++ u))))
          else some magic
    ])
    else some []

-- "Determine the diff base"
unfoldable pub diff_base : DumpOptions → ℤ → ℤ
diff_base opts global_rev =
    let diff_rev = if lez (pos 0) (decz global_rev) then decz global_rev else pos 0 in
    if ltz diff_rev opts.start then opts.start else diff_rev

module _ ⦃names : DumpNames⦄ ⦃apr : AprHash⦄ ⦃strings : AprStrings⦄ ⦃cb : Critbit⦄
    ⦃sn : Snappy⦄ where
  -- "The first revision sets up the user prefix"
  unfoldable pub set_up_prefix : DumpState → DumpState
  set_up_prefix st = elim (eqz st.local_rev (pos 1)) [
    | false ↦ st
    | true ↦
        let (text, opts) = dump_create_user_prefix st.opts in
        record st { opts = opts; out = st.out ++ text }
  ]

  -- one padding revision; where the commit fails, the number stays
  unfoldable pub pad_revision : DumpState → Status × DumpState
  unfolding set_up_prefix
  pad_revision st =
      let text = dump_padding_revision st.local_rev in
      let (s, repo) = path_repo_commit st.repo st.local_rev in
      let st' = record st { repo = repo; out = st.out ++ text } in
      elim s [
        | failure ↦ (failure, st')
        | success ↦
            let st'' = set_up_prefix st' in
            (success, record st'' { local_rev = incz st''.local_rev })
      ]

  -- "Padd with empty revisions if neccessary", up to the number. The fuel is the distance.
  unfoldable pub pad_revisions : ℕ → DumpState → ℤ → Status × DumpState
  unfolding pad_revision
  pad_revisions zero st target = (success, st)
  pad_revisions (suc fuel) st target = elim (ltz st.local_rev target) [
    | false ↦ (success, st)
    | true ↦
        let (s, st') = pad_revision st in
        elim s [ failure ↦ (failure, st') | success ↦ pad_revisions fuel st' target ]
  ]

  -- local revisions are not negative
  unfoldable pub distance : ℤ → ℤ → ℕ
  distance (pos a) (pos b) = b - a
  distance (pos a) (negsuc b) = 0
  distance (negsuc a) (pos b) = b + a + 1
  distance (negsuc a) (negsuc b) = a - b

  unfoldable pub pad : DumpState → LogRevision → Status × DumpState
  unfolding pad_revisions distance
  pad st log =
      if st.opts.flags.keep_revnums && not st.opts.flags.initial_dry_run
      then pad_revisions (distance st.local_rev log.revision) st log.revision
      else (success, st)

  -- "Dump the revision header"
  unfoldable pub dump_header : DumpState → LogRevision → DumpState
  unfolding set_up_prefix
  dump_header st log = elim st.opts.flags.initial_dry_run [
    | true ↦ st
    | false ↦ set_up_prefix (record st { out = st.out ++ dump_revision_header log st.local_rev })
  ]

  -- "Commit actions scheduled by the delta editor to the path repository"
  unfoldable pub commit_round : DumpState → Status × DumpState
  commit_round st =
      let (s, repo) =
        if st.opts.flags.initial_dry_run
        then path_repo_discard st.repo
        else path_repo_commit st.repo st.local_rev in
      (s, record st { repo = repo })

  -- the end of a round
  unfoldable pub finish_round : DumpState → LogRevision → DumpState
  finish_round st log = record st {
    global_rev = incz log.revision;
    local_rev = incz st.local_rev;
    opts = record st.opts { flags = record st.opts.flags { initial_dry_run = false } };
  }

  -- "Setup the delta editor and run a diff", and what follows it in the round
  unfoldable pub dump_diff : ⦃differ : Differ⦄ → DumpState → LogRevision → Status × DumpState
  unfolding diff_base commit_round finish_round
  dump_diff ⦃differ⦄ st log =
      let (s, text, repo, storage) =
        differ.do_diff st.opts (diff_base st.opts st.global_rev) log st.local_rev
          (eqz st.global_rev st.opts.start) st.logs st.repo st.storage in
      let st1 = record st { repo = repo; storage = storage; out = st.out ++ text } in
      elim s [
        | failure ↦ (failure, st1)
        | success ↦
            let (s2, st2) = commit_round st1 in
            elim s2 [
              | failure ↦ (failure, st2)
              | success ↦
                  let (s3, storage3) = property_storage_cleanup st2.storage in
                  let st3 = record st2 { storage = storage3 } in
                  elim s3 [ failure ↦ (failure, st3) | success ↦ (success, finish_round st3 log) ]
            ]
      ]

  -- a round, once its log is known
  unfoldable pub dump_round : ⦃differ : Differ⦄ → DumpState → LogRevision → Status × DumpState
  unfolding pad dump_header dump_diff
  dump_round st log =
      let (s, st1) = pad st log in
      elim s [ failure ↦ (failure, st1) | success ↦ dump_diff (dump_header st1 log) log ]

module _ ⦃apr : AprHash⦄ ⦃cb : Critbit⦄ ⦃obf : Obfuscation⦄ where
  -- The start of a round: the log is fetched, or is the next of those that are there. `none` is an
  -- error, or an index out of bounds.
  pub log_at : List LogRevision → ℤ → Option LogRevision
  log_at logs (pos i) = get_elem? logs i
  log_at logs (negsuc i) = none

  unfoldable pub fetch_log :
      ⦃server : LogServer⦄ → Session → Bool → DumpState → Option LogRevision × DumpState × Session
  unfolding log_at
  fetch_log session true st =
      (log_at st.logs (incz st.list_idx), record st { list_idx = incz st.list_idx }, session)
  fetch_log session false st =
      let (fetched, session') = log_fetch_single session st.global_rev st.opts.end in
      elim fetched [
        | none ↦ (none, st, session')
        | some log ↦ (
          some log,
          record st { logs = st.logs ++ log ∷ []; list_idx = pos (length st.logs) },
          session',
        )
      ]
