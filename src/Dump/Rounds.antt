-- ===== src/Dump/Rounds.antt =====
-- The loop of dump() of src/dump.c over the revisions, and dump() as a whole.
pub mod Ends
use rsvndump.Base.{
  ℕ, zero, suc, Text, ℤ, pos, incz, decz, eqz, lez, Bool, true, false, not, ◌&&◌, ◌||◌, ◌==◌,
  if◌then◌else◌, Option, none, some, List, [], ◌∷◌, length, ◌>>=◌, Status, success, failure,
}
use rsvndump.Apr.{AprHash, AprStrings}
use rsvndump.Critbit.{Critbit}
use rsvndump.Snappy.{Snappy}
use rsvndump.Svn.{DumpNames}
use rsvndump.Ra.{Ra, NodeKind, node_file, node_dir, node_other}
use rsvndump.Stdio.{File}
use rsvndump.Log.{LogRevision}
use rsvndump.Log.Fetch.{LogServer, log_get_range, log_fetch_all}
use rsvndump.Session.{Obfuscation, Session}
use rsvndump.Options.{DumpOptions}
use rsvndump.PathRepo.{PathRepo, path_repo_create}
use rsvndump.PathRepo.Edit.Replay.{path_repo_commit_log}
use rsvndump.Property.Store.{PropertyStorage, property_storage_create}
use rsvndump.Dump.Loop.{
  Differ, DumpState, ltz, write_header, log_at, fetch_log, dump_round, distance,
}
use rsvndump.Dump.Start.{Remote, Prepared, dump_start}

module _ ⦃names : DumpNames⦄ ⦃apr : AprHash⦄ ⦃strings : AprStrings⦄ ⦃cb : Critbit⦄ ⦃sn : Snappy⦄
    ⦃obf : Obfuscation⦄ ⦃server : LogServer⦄ ⦃differ : Differ⦄ where
  -- The loop; the fuel bounds its rounds.
  unfoldable pub dump_rounds : ℕ → Session → Bool → DumpState → Status × DumpState
  dump_rounds zero session fetched st = (failure, st)
  dump_rounds (suc fuel) session fetched st =
      let (log, st1, session1) = fetch_log session fetched st in
      elim log [
        | none ↦ (failure, st1)
        | some l ↦
            let (s, st2) = dump_round st1 l in
            elim s [
              | failure ↦ (failure, st2)
              | success ↦ elim (lez st2.global_rev st2.opts.end) [
                | false ↦ (success, st2)
                | true ↦ dump_rounds fuel session1 fetched st2
              ]
            ]
      ]

  -- The fuel is the number of revisions from the first to the last, and one more.
  unfoldable pub dump_loop : Session → Bool → DumpState → Status × DumpState
  unfolding dump_rounds
  dump_loop session fetched st =
      dump_rounds (suc (distance st.global_rev (incz st.opts.end))) session fetched st

module _ ⦃names : DumpNames⦄ ⦃apr : AprHash⦄ ⦃strings : AprStrings⦄ ⦃cb : Critbit⦄ ⦃sn : Snappy⦄
    ⦃ra : Ra⦄ ⦃obf : Obfuscation⦄ ⦃server : LogServer⦄ ⦃remote : Remote⦄ ⦃differ : Differ⦄ where
  unfoldable pub dump :
      Option File → Option File → Session → DumpOptions → Status × Option DumpState
  unfolding dump_start dump_loop
  dump prop_file path_file session opts = elim (dump_start prop_file path_file session opts) [
    | none ↦ (failure, none)
    | some (p, st) ↦ let (s, st') = dump_loop p.session p.logs_fetched st in (s, some st')
  ]
