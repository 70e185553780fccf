-- ===== src/Tests/Copies.antt =====
-- Where copies come from.
use rsvndump.Base.{ℕ, pos, ◌≡◌, refl, false, none, some, [], ◌∷◌, ◌++◌, codes, arith}
use rsvndump.Samples.{list_hash}
use rsvndump.Log.{LogRevision}
use rsvndump.Options.{dump_options_create}
use rsvndump.Delta.CopyFrom.{
  delta_get_local_copyfrom_path, delta_get_local_copyfrom_rev, revisions_of,
}
use rsvndump.Delta.CopyFrom.Nearest.{IsNearest, delta_get_local_copyfrom_rev-IsNearest}
use rsvndump.Delta.CopyFrom.Prefix.{
  slashes, Bare, delta_get_local_copyfrom_path-append, delta_get_local_copyfrom_path_sound,
}

abbrev pub log_of : ℕ → LogRevision
log_of n = record {
  revision = pos n;
  author = none;
  date = none;
  message = none;
  changed_paths = none;
}

-- Revisions 0, 3, 5 and 8, of which 8 is being dumped.
nearest_of_4 :
    delta_get_local_copyfrom_rev
      (pos 4)
      dump_options_create
      (log_of 0 ∷ log_of 3 ∷ log_of 5 ∷ log_of 8 ∷ [])
    ≡ pos 1
unfolding delta_get_local_copyfrom_rev
nearest_of_4 = refl

plain : dump_options_create.flags.keep_revnums ≡ false
plain = refl

delta_get_local_copyfrom_rev-IsNearest_example :
    IsNearest (pos 4) (revisions_of (log_of 0 ∷ log_of 3 ∷ log_of 8 ∷ [])) 2 (
      delta_get_local_copyfrom_rev
        (pos 4)
        dump_options_create
        (log_of 0 ∷ log_of 3 ∷ log_of 8 ∷ []))
delta_get_local_copyfrom_rev-IsNearest_example =
    delta_get_local_copyfrom_rev-IsNearest (pos 4) dump_options_create (log_of 0)
      (log_of 3 ∷ log_of 8 ∷ []) plain

delta_get_local_copyfrom_path-append_example :
    delta_get_local_copyfrom_path (codes "trunk") (codes "trunk" ++ (slashes 0 ++ codes "2/a"))
    ≡ some (codes "2/a")
delta_get_local_copyfrom_path-append_example =
    delta_get_local_copyfrom_path-append (codes "trunk") (codes "2/a") 0 (λ e. omega (arith, e))

copy_inside : delta_get_local_copyfrom_path (codes "trunk") (codes "trunk/a") ≡ some (codes "a")
copy_inside =
    delta_get_local_copyfrom_path-append (codes "trunk") (codes "a") 1 (λ e. omega (arith, e))

delta_get_local_copyfrom_path_sound_example :
    (k : ℕ) × (codes "trunk/a" ≡ codes "trunk" ++ (slashes k ++ codes "a")) × Bare (codes "a")
delta_get_local_copyfrom_path_sound_example =
    delta_get_local_copyfrom_path_sound (codes "trunk") (codes "trunk/a") (codes "a") copy_inside
