-- ===== src/Stdio.antt =====
-- The part of C's stdio that src/mukv.c uses, on one open file.
use Prim.Native.Nat.{min}
use rsvndump.Base.{
  ℕ, ◌+◌, ◌-◌, Text, Bool, Option, none, some, ◌++◌, take, drop, length, if◌then◌else◌,
}

-- A FILE opened by "w+". `room` is the size that the device lets it grow to, and fseek() fails
-- where `seekable` is false.
pub record File : Type 0 where
  pub bytes : Text
  pub offset : ℕ
  pub room : ℕ
  pub seekable : Bool

-- fseek(f, off, SEEK_SET), fseek(f, 0, SEEK_END), ftell(f)
abbrev pub fseek_set : File → ℕ → Option File
fseek_set f off = if f.seekable then some (record f { offset = off }) else none

abbrev pub fseek_end : File → Option File
fseek_end f = if f.seekable then some (record f { offset = length f.bytes }) else none

abbrev pub ftell : File → ℕ
ftell f = f.offset

-- fwrite() puts down what fits, and says how much.
abbrev pub fwrite : File → Text → ℕ × File
fwrite f d =
    let n = min (length d) (f.room - f.offset) in
    (
      n,
      record f {
        bytes = take f.offset f.bytes ++ (take n d ++ drop (f.offset + n) f.bytes);
        offset = f.offset + n;
      },
    )

-- fread() gets what is there, at most `size` bytes.
abbrev pub fread : File → ℕ → Text × File
fread f size =
    let d = take size (drop f.offset f.bytes) in (d, record f { offset = f.offset + length d })
