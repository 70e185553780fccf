-- ===== src/Files.antt =====
-- The file system and Subversion's text deltas, as far as src/delta.c and src/utils.c use them:
-- parameters of the model.
use rsvndump.Base.{ℕ, Text, ◌≡◌, Option, some, length}

-- `none` is an error. `make_dirs` is apr_dir_make_recursive(). `mktemp` is apr_file_mktemp(): it
-- fills in the template and makes an empty file. `read` opens a file and reads it to its end, `size`
-- is that of apr_stat(), `write` is what goes to a file that is open for writing, and `remove` is
-- apr_file_remove(), whose result nobody looks at. `deltify` is svn_txdelta() with
-- svn_txdelta_send_txstream(), from source and target to svndiff; `patch` is the handler of
-- svn_txdelta_apply(), given windows: the new contents and their MD5 sum.
pub record Files : Type 1 where
  pub Fs : Type 0
  pub Windows : Type 0
  pub make_dirs : Fs → Text → Option Fs
  pub mktemp : Fs → Text → Option (Text × Fs)
  pub read : Fs → Text → Option Text
  pub size : Fs → Text → Option ℕ
  pub write : Fs → Text → Text → Fs
  pub remove : Fs → Text → Fs
  pub deltify : Text → Text → Option Text
  pub patch : Text → Windows → Option (Text × Text)
  pub size-read : (fs : Fs) (p d : Text) → read fs p ≡ some d → size fs p ≡ some (length d)
