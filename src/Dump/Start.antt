-- ===== src/Dump/Start.antt =====
-- dump() of src/dump.c from its start to the loop over the revisions.
use rsvndump.Base.{
  Text, ℤ, pos, incz, decz, eqz, Bool, true, false, not, ◌&&◌, ◌||◌, ◌==◌, if◌then◌else◌, Option,
  none, some, List, [], ◌∷◌, length, ◌>>=◌, Status, success, failure,
}
use rsvndump.Apr.{AprHash, AprStrings}
use rsvndump.Critbit.{Critbit}
use rsvndump.Snappy.{Snappy}
use rsvndump.Svn.{DumpNames}
use rsvndump.Ra.{Ra, NodeKind, node_file, node_dir, node_other}
use rsvndump.Stdio.{File}
use rsvndump.Log.{LogRevision}
use rsvndump.Log.Fetch.{LogServer, log_get_range, log_fetch_all}
use rsvndump.Session.{Obfuscation, Session}
use rsvndump.Options.{DumpOptions}
use rsvndump.PathRepo.{PathRepo, path_repo_create}
use rsvndump.PathRepo.Edit.Replay.{path_repo_commit_log}
use rsvndump.Property.Store.{PropertyStorage, property_storage_create}
use rsvndump.Dump.Loop.{DumpState, ltz, write_header, log_at}

-- What else is asked of the remote side, a parameter of the model: svn_ra_stat() of the root for its
-- created_rev, where the inner `none` is a root that does not exist; svn_ra_check_path() of the
-- root, where `node_other` is svn_node_none; svn_ra_get_uuid2(). The outer `none` is an error.
pub record Remote : Type 0 where
  pub created_rev : ℤ → Option (Option ℤ)
  pub check_root : ℤ → Option NodeKind
  pub uuid : Option Text

module _ ⦃remote : Remote⦄ where
  unfoldable pub dump_determine_end : ℤ → Option ℤ
  dump_determine_end rev = remote.created_rev rev >>= λ found. found

  -- of the root, the only path that is asked for
  unfoldable pub dump_check_path : ℤ → NodeKind
  dump_check_path rev = elim (remote.check_root rev) [ none ↦ node_other | some kind ↦ kind ]

  unfoldable pub session_check_reparent : ℤ → Status
  session_check_reparent rev = elim (remote.check_root rev) [
    | none ↦ failure
    | some kind ↦ elim kind [ node_file ↦ failure | node_dir ↦ success | node_other ↦ success ]
  ]

unfoldable pub missing_root : NodeKind → Bool
missing_root NodeKind.node_file = false
missing_root NodeKind.node_dir = false
missing_root NodeKind.node_other = true

-- "Dumping with deltas requires dump format version 3"
unfoldable pub set_format : DumpOptions → DumpOptions
set_format opts = if opts.flags.use_deltas then record opts { dump_format = 3 } else opts

unfoldable pub went_well : Status → Option Status
went_well failure = none
went_well success = some success

unfoldable pub starts_mid : DumpOptions → Bool
starts_mid opts = opts.flags.incremental && not (eqz opts.start (pos 0))

module _ ⦃apr : AprHash⦄ ⦃remote : Remote⦄ ⦃server : LogServer⦄ where
  -- the first and the last revision of a part of the repository, or a check of the first
  unfoldable pub adjust_range : DumpOptions → Text → Option DumpOptions
  unfolding dump_check_path missing_root
  adjust_range opts prefix =
      if eqz opts.start (pos 0) && not (length prefix == 0)
      then (log_get_range opts.start opts.end >>= λ r.
          some (record opts { start = r.0; end = r.1 }))
      else if missing_root (dump_check_path opts.start)
      then none
      else some opts

  -- "Determine the correct revision range"
  unfoldable pub determine_range : DumpOptions → Text → Option DumpOptions
  unfolding adjust_range dump_determine_end
  determine_range opts prefix =
      dump_determine_end opts.end >>= λ end. adjust_range (record opts { end = end }) prefix

module _ ⦃apr : AprHash⦄ where
  -- the empty revision 0 of a dump of a subdirectory
  abbrev pub dummy : LogRevision
  dummy = record {
    revision = pos 0;
    author = none;
    date = none;
    message = none;
    changed_paths = none;
  }

  unfoldable pub first_logs : Text → List LogRevision
  first_logs prefix = if length prefix == 0 then [] else dummy ∷ []

module _ ⦃apr : AprHash⦄ ⦃strings : AprStrings⦄ ⦃cb : Critbit⦄ ⦃sn : Snappy⦄ ⦃ra : Ra⦄ where
  -- The loop that fills "the path hash for previous revisions", over the logs from `local_rev` on,
  -- with the number where it stops.
  unfoldable pub prepare_history :
      List LogRevision
      → ℤ
      → PathRepo
      → DumpOptions
      → Text
      → List LogRevision
      → Status × ℤ × PathRepo
  prepare_history [] local_rev repo opts prefix logs = (success, local_rev, repo)
  prepare_history (l ∷ ls) local_rev repo opts prefix logs =
      let phrev = if opts.flags.keep_revnums then l.revision else local_rev in
      let (s, repo') = path_repo_commit_log repo prefix opts l phrev logs in
      elim (ltz l.revision opts.start) [
        | false ↦ (success, local_rev, repo)
        | true ↦ elim s [
          | failure ↦ (failure, local_rev, repo')
          | success ↦ prepare_history ls (incz local_rev) repo' opts prefix logs
        ]
      ]

-- "The first revision is a dry run": `local_rev` is where the history ends.
unfoldable pub step_back : ℤ → Text → ℤ
step_back local_rev prefix =
    if ltz (pos 1) local_rev || length prefix == 0 then decz local_rev else local_rev

-- what dump() knows before the loop
module _ ⦃apr : AprHash⦄ ⦃cb : Critbit⦄ ⦃obf : Obfuscation⦄ where
  pub record Prepared : Type 0 where
    pub session : Session
    pub opts : DumpOptions
    pub logs : List LogRevision
    pub logs_fetched : Bool
    pub local_rev : ℤ
    pub repo : PathRepo
    pub storage : PropertyStorage

  unfoldable pub prepare_start : Prepared → Option Prepared
  prepare_start p =
      if not (length p.session.prefix == 0) && eqz p.opts.start (pos 0)
      then some (record p { opts = record p.opts { start = pos 1 } })
      else some p

  -- an index out of bounds counts as an error
  unfoldable pub jump_back : Prepared → ℤ → Option Prepared
  unfolding step_back
  jump_back p local_rev =
      let back = step_back local_rev p.session.prefix in
      log_at p.logs back >>= λ log. some (record p {
        local_rev = back;
        opts = record p.opts {
          start = log.revision;
          flags = record p.opts.flags { initial_dry_run = true };
        };
      })

  -- the number of the first revision in the loop, and the index of its log
  unfoldable pub first_local : Prepared → Bool → ℤ
  first_local p start_mid =
      if not start_mid
      then (if eqz p.opts.start (pos 0) then pos 0 else pos 1)
      else if p.opts.flags.keep_revnums
      then p.opts.start
      else p.local_rev

  unfoldable pub first_index : Prepared → Bool → ℤ
  first_index p start_mid = if not start_mid then pos 0 else decz p.local_rev

  -- "logs_fetched, opts->end set to"
  unfoldable pub last_end : Prepared → Option DumpOptions
  last_end p =
      if p.logs_fetched
      then (log_at p.logs (decz (pos (length p.logs))) >>= λ log.
          some (record p.opts { end = log.revision }))
      else some p.opts

module _ ⦃apr : AprHash⦄ ⦃strings : AprStrings⦄ ⦃cb : Critbit⦄ ⦃sn : Snappy⦄ ⦃ra : Ra⦄
    ⦃obf : Obfuscation⦄ ⦃server : LogServer⦄ where
  unfoldable pub jump_if : Status → Prepared → ℤ → Option Prepared
  unfolding jump_back
  jump_if failure p local_rev = none
  jump_if success p local_rev = jump_back p local_rev

  -- the logs of a dump that starts in the middle, all of them, and the history before it
  unfoldable pub fill_history : Prepared → Status × List LogRevision × Session → Option Prepared
  unfolding prepare_history jump_if
  fill_history p (failure, logs, session) = none
  fill_history p (success, logs, session) =
      let (s, local_rev, repo) = prepare_history logs (pos 0) p.repo p.opts session.prefix logs in
      jump_if s (record p { session = session; logs = logs; logs_fetched = true; repo = repo })
        local_rev

  unfoldable pub prepare_mid : Prepared → Option Prepared
  unfolding fill_history
  prepare_mid p = fill_history p (log_fetch_all p.session (pos 0) p.opts.end p.logs)

module _ ⦃names : DumpNames⦄ ⦃apr : AprHash⦄ ⦃strings : AprStrings⦄ ⦃cb : Critbit⦄ ⦃sn : Snappy⦄
    ⦃ra : Ra⦄ ⦃obf : Obfuscation⦄ ⦃server : LogServer⦄ ⦃remote : Remote⦄ where
  -- "Pre-dumping initialization", after the header of the file
  unfoldable pub first_state : Prepared → Bool → Option DumpState
  unfolding last_end first_local first_index
  first_state p start_mid = write_header p.opts start_mid p.session.prefix remote.uuid >>= λ header.
      last_end p >>= λ opts. some (record {
        opts = opts;
        logs = p.logs;
        local_rev = first_local p start_mid;
        global_rev = opts.start;
        list_idx = first_index p start_mid;
        repo = p.repo;
        storage = p.storage;
        out = header;
      })

  unfoldable pub prepare : Bool → Prepared → Option Prepared
  unfolding prepare_mid prepare_start
  prepare start_mid p = if start_mid then prepare_mid p else prepare_start p

  -- before the logs are known; -1 is the first value of `local_rev`
  unfoldable pub unprepared : Session → DumpOptions → PropertyStorage → PathRepo → Prepared
  unfolding first_logs
  unprepared session opts storage repo = record {
    session = session;
    opts = opts;
    logs = first_logs session.prefix;
    logs_fetched = false;
    local_rev = decz (pos 0);
    repo = repo;
    storage = storage;
  }

  -- The two files are what property_storage_create() and path_repo_create() open. `none` is an
  -- error before the loop.
  unfoldable pub dump_start :
      Option File → Option File → Session → DumpOptions → Option (Prepared × DumpState)
  unfolding determine_range session_check_reparent set_format starts_mid prepare unprepared
      first_state went_well
  dump_start prop_file path_file session opts =
      determine_range (set_format opts) session.prefix >>= λ ranged.
      went_well (session_check_reparent ranged.start) >>= λ _.
      property_storage_create prop_file >>= λ storage. path_repo_create path_file >>= λ repo.
      prepare (starts_mid opts) (unprepared session ranged storage repo) >>= λ p.
      first_state p (starts_mid opts) >>= λ st. some (p, st)
