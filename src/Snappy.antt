-- ===== src/Snappy.antt =====
-- The compressor of lib/snappy-c, a copy of another project: a parameter of the model.
use rsvndump.Base.{ℕ, Text, ◌≡◌, Option, some, length}

-- `none` is a call that fails. What was compressed comes back, and its length is known before.
pub record Snappy : Type 0 where
  pub compress : Text → Option Text
  pub uncompressed_length : Text → Option ℕ
  pub uncompress : Text → Option Text
  pub uncompressed_length-compress :
      (d c : Text) → compress d ≡ some c → uncompressed_length c ≡ some (length d)
  pub uncompress-compress : (d c : Text) → compress d ≡ some c → uncompress c ≡ some d
