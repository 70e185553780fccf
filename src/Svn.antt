-- ===== src/Svn.antt =====
-- What the program takes from Subversion's libraries, as parameters of the model: the names of the
-- fields of a dump file (svn_repos.h), and the calls that compute with names and checksums.
use rsvndump.Base.{ℕ, Text, Bool, ◌<◌, ◌≢◌, ◌∷◌, length}

-- SVN_REPOS_DUMPFILE_MAGIC_HEADER and its siblings
pub record DumpNames : Type 0 where
  pub magic_header : Text
  pub revision_number : Text
  pub prop_content_length : Text
  pub content_length : Text
  pub node_path : Text
  pub node_kind : Text
  pub node_action : Text
  pub node_copyfrom_rev : Text
  pub node_copyfrom_path : Text
  pub prop_delta : Text
  pub text_delta : Text
  pub text_content_length : Text
  pub text_content_md5 : Text

-- `is_url` is svn_path_is_url(), `regular` is `svn_property_kind(NULL, name) == svn_prop_regular_kind`, and `digest` is
-- svn_md5_digest_to_cstring(). svn_path_dirname() leaves out the last component; a path that does
-- not start with a slash gets shorter by that, and does not start with one afterwards.
pub record SvnCalls : Type 0 where
  pub regular : Text → Bool
  pub digest : Text → Text
  pub dirname : Text → Text
  pub is_url : Text → Bool
  pub dirname_shorter : (c : ℕ) (s : Text) → c ≢ b'/' → length (dirname (c ∷ s)) < length (c ∷ s)
  pub dirname_relative : (c : ℕ) (s : Text) → c ≢ b'/' → (t : Text) → dirname (c ∷ s) ≢ b'/' ∷ t
