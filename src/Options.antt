-- ===== src/Options.antt =====
-- dump_options_t of src/dump.h.
use rsvndump.Base.{ℕ, Text, ℤ, pos, negsuc, Bool, false, Option, none}

-- `flags` is one Bool for each constant of `enum dump_flags`.
pub record Flags : Type 0 where
  pub use_deltas : Bool
  pub keep_revnums : Bool
  pub incremental : Bool
  pub initial_dry_run : Bool
  pub no_incremental_header : Bool
  pub dry_run : Bool

pub record DumpOptions : Type 0 where
  pub temp_dir : Option Text
  pub prefix : Option Text
  pub start : ℤ
  pub end : ℤ
  pub flags : Flags
  pub dump_format : ℕ

-- Revision -1 is HEAD.
abbrev pub dump_options_create : DumpOptions
dump_options_create = record {
  temp_dir = none;
  prefix = none;
  start = pos 0;
  end = negsuc 0;
  flags = record {
    use_deltas = false;
    keep_revnums = false;
    incremental = false;
    initial_dry_run = false;
    no_incremental_header = false;
    dry_run = false;
  };
  dump_format = 2;
}
