-- ===== src/Delta/CopyFrom.antt =====
-- delta_get_local_copyfrom_path() and delta_get_local_copyfrom_rev() of src/delta.c: where a copy
-- comes from, in the numbers and paths of the dump.
pub mod Nearest
pub mod Prefix
use rsvndump.Base.{
  ℕ, zero, suc, ◌+◌, ◌-◌, ◌≤◌, ◌<◌, Text, ℤ, pos, negsuc, eqz, lez, starts_with, starts_with-append,
  ◌≡◌, ◌≢◌, refl, ap, sym, ◌∙◌, Bool, true, false, not, Option, none, some, List, [], ◌∷◌, ◌++◌,
  length, get_elem?, drop, ◌==◌, if◌then◌else◌, arith,
}
use rsvndump.Apr.{AprHash}
use rsvndump.Log.{LogRevision}
use rsvndump.Options.{DumpOptions}

-- while (*path == '/') ++path
unfoldable pub skip_slashes : Text → Text
skip_slashes [] = []
skip_slashes (c ∷ s) = let rest = skip_slashes s in if c == b'/' then rest else c ∷ s

-- `none` is NULL.
unfoldable pub delta_get_local_copyfrom_path : Text → Text → Option Text
unfolding skip_slashes
delta_get_local_copyfrom_path prefix path =
    if starts_with prefix path then some (skip_slashes (drop (length prefix) path)) else none

-- a < b, on signed numbers
abbrev pub ltz : ℤ → ℤ → Bool
ltz a b = not (lez b a)

-- The loop from the index below `n` downwards: the first entry that is not beyond the revision, or
-- -1. `revisions` has the `revision` of each log.
pub search_back : ℤ → List ℤ → ℕ → ℤ
search_back original revisions zero = negsuc 0
search_back original revisions (suc i) =
    let below = search_back original revisions i in
    elim (get_elem? revisions i) [
      | none ↦ below
      | some r ↦ if eqz original r then pos i else if ltz r original then pos i else below
    ]

-- `rev` starts at nelts-1 and is counted down before each test. With no logs it ends at -2.
pub search_logs : ℤ → List ℤ → ℤ
unfolding search_back
search_logs original [] = negsuc 1
search_logs original (r ∷ rs) = search_back original (r ∷ rs) (length rs)

module _ ⦃apr : AprHash⦄ where
  pub revisions_of : List LogRevision → List ℤ
  revisions_of [] = []
  revisions_of (l ∷ ls) = l.revision ∷ revisions_of ls

  unfoldable pub delta_get_local_copyfrom_rev : ℤ → DumpOptions → List LogRevision → ℤ
  unfolding search_logs revisions_of
  delta_get_local_copyfrom_rev original opts logs =
      if opts.flags.keep_revnums then original else search_logs original (revisions_of logs)
