-- ===== src/Tests/Rounds.antt =====
-- A round of the loop over the revisions.
use rsvndump.Base.{
  true, ℕ, ◌≤◌, ℤ, List, Option, none, some, ◌∷◌, All, subst, pos, ◌≡◌, refl, false, not, ◌&&◌,
  if◌then◌else◌, [], arith, success,
}
use rsvndump.Samples.{list_hash, byte_strings, list_tree, copying, first_ones}
use rsvndump.Options.{DumpOptions, dump_options_create}
use rsvndump.PathRepo.{is_snapshot}
use rsvndump.PathRepo.Edit.{path_repo_commit}
use rsvndump.Property.Store.{property_storage_cleanup}
use rsvndump.Dump.Loop.{
  Differ, DumpState, dump_round, pad, pad_revisions, pad_revision, distance, dump_header, dump_diff,
  commit_round, set_up_prefix, finish_round,
}
use rsvndump.Dump.Loop.Numbers.{local_rev-dump_round}
use rsvndump.Log.Fetch.{Received, LogServer}
use rsvndump.Dump.Rounds.{dump_loop}
use rsvndump.Dump.Rounds.Ends.{From, Runs, dump_loop-Runs}
use rsvndump.Tests.Paths.{fresh_repo}
use rsvndump.Tests.Nodes.{whole_session}
use rsvndump.Tests.Dumps.{names, unnamed, one_log, empty_storage}

-- No node differs.
instance abbrev nothing_differs : Differ
nothing_differs = record {
  do_diff = λ opts base log local_rev start_empty logs repo storage. (success, [], repo, storage);
}

-- Revision numbers are kept: the dump is padded.
abbrev keeping : DumpOptions
keeping = record dump_options_create {
  flags = record dump_options_create.flags { keep_revnums = true };
}

abbrev third_round : DumpState
third_round = record {
  opts = keeping;
  logs = [];
  local_rev = pos 3;
  global_rev = pos 6;
  list_idx = pos 2;
  repo = fresh_repo 99;
  storage = empty_storage;
  out = [];
}

third_round_succeeds : (dump_round third_round one_log).0 ≡ success
unfolding dump_round pad dump_header dump_diff commit_round path_repo_commit is_snapshot
    property_storage_cleanup set_up_prefix finish_round first_ones pad_revisions pad_revision
    distance
third_round_succeeds = refl

local_rev-dump_round_example :
    ((dump_round third_round one_log).1.local_rev ≡ (
      if third_round.opts.flags.keep_revnums && not third_round.opts.flags.initial_dry_run
      then pos 8
      else pos 4))
    × ((dump_round third_round one_log).1.global_rev ≡ pos 8)
    × ((dump_round third_round one_log).1.opts.flags.initial_dry_run ≡ false)
local_rev-dump_round_example =
    local_rev-dump_round third_round one_log 3 7 refl refl (omega arith) third_round_succeeds

-- Every revision has a log.
abbrev entry : ℤ → Received
entry rev = record {
  changed_paths = none;
  revision = rev;
  author = none;
  date = none;
  message = none;
}

instance abbrev all_revisions : LogServer
all_revisions = record { get_log = λ start end most. some (entry start ∷ []) }

abbrev ListFrom : ℕ → Option (List Received) → Type 0
ListFrom a none = Unit
ListFrom a (some l) = All (λ (r : Received). From a r.revision) l

entries_in_order :
    (a e : ℕ) (l : List Received)
    → a ≤ e
    → all_revisions.get_log (pos a) (pos e) 1 ≡ some l
    → All (λ (r : Received). From a r.revision) l
entries_in_order a e l le h =
    subst (ListFrom a) h (record { number = a; is_number = refl; from = omega arith }, tt)

abbrev sixth_of_seven : DumpState
sixth_of_seven = record third_round { opts = record dump_options_create { end = pos 7 } }

dump_loop-Runs_example :
    Runs false whole_session sixth_of_seven (dump_loop whole_session false sixth_of_seven)
dump_loop-Runs_example =
    dump_loop-Runs 6 7 whole_session sixth_of_seven entries_in_order refl refl (omega arith)
