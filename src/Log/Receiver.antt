-- ===== src/Log/Receiver.antt =====
-- log_receiver() of src/log.c, the callback that keeps what the log says about the session's prefix.
pub mod Local
use rsvndump.Base.{
  ℕ, zero, suc, ◌+◌, Text, ℤ, Bool, true, false, not, ◌&&◌, ◌||◌, ltb, ◌==◌, if◌then◌else◌,
  starts_with, Option, none, some, List, [], ◌∷◌, ◌++◌, length, drop, get_elem?, ◌>>=◌,
}
use rsvndump.Apr.{AprHash}
use rsvndump.Session.{Obfuscation, Session, session_obfuscate, session_obfuscate_once}
use rsvndump.Log.{ChangedPath, LogRevision}

-- Whether the prefix is at the start of `key+1`, and its end there is the end or a slash.
pub in_prefix : Text → Text → Bool
in_prefix prefix [] = false
in_prefix prefix (c ∷ key) =
    starts_with prefix key
    && not (
        ltb 0 (length prefix)
        && (ltb (length prefix) (length key)
            && not (elim (get_elem? key (length prefix)) [ none ↦ false | some d ↦ d == b'/' ])))

-- if (*key == '/') key += 1
pub strip_slash : Text → Text
strip_slash [] = []
strip_slash (c ∷ key) = if c == b'/' then key else c ∷ key

-- The key without the prefix; `none` where the entry is skipped.
pub local_key : Text → Text → Option Text
unfolding in_prefix strip_slash
local_key prefix key =
    if in_prefix prefix key
    then some (strip_slash (if ltb 0 (length prefix) then drop (length prefix + 1) key else key))
    else none

pub strip_source : Option Text → Option Text
unfolding strip_slash
strip_source none = none
strip_source (some path) = some (strip_slash path)

module _ ⦃apr : AprHash⦄ ⦃obf : Obfuscation⦄ where
  -- The value of an entry, unless the entry is skipped.
  pub keep_path :
      Session → apr.Hash ChangedPath → Option Text → ChangedPath → apr.Hash ChangedPath × Session
  unfolding strip_source
  keep_path session kept none svalue = (kept, session)
  keep_path session kept (some local) svalue =
      let (from, session') = session_obfuscate session (strip_source svalue.copyfrom_path) in
      (apr.put kept local (some (record svalue { copyfrom_path = from })), session')

  -- one round of the loop
  pub receive_entry :
      Session → apr.Hash ChangedPath → Text → ChangedPath → apr.Hash ChangedPath × Session
  unfolding keep_path local_key
  receive_entry session kept key svalue =
      let (name, session') = session_obfuscate session (some key) in
      keep_path session' kept (name >>= local_key session'.prefix) svalue

  pub copy_paths :
      Session → apr.Hash ChangedPath → List (Text × ChangedPath) → apr.Hash ChangedPath × Session
  unfolding receive_entry
  copy_paths session kept [] = (kept, session)
  copy_paths session kept ((key, svalue) ∷ l) =
      let (kept', session') = receive_entry session kept key svalue in copy_paths session' kept' l

  -- NULL leaves a new hash.
  pub receive_paths : Session → Option (apr.Hash ChangedPath) → apr.Hash ChangedPath × Session
  unfolding copy_paths
  receive_paths session none = (apr.make, session)
  receive_paths session (some changed) = copy_paths session apr.make (apr.entries changed)

  unfoldable pub log_receiver :
      Session
      → Option (apr.Hash ChangedPath)
      → ℤ
      → Option Text
      → Option Text
      → Option Text
      → LogRevision × Session
  unfolding receive_paths
  log_receiver session changed_paths revision author date message =
      let (author', s1) = session_obfuscate_once session author in
      let (message', s2) = session_obfuscate_once s1 message in
      let (paths, s3) = receive_paths s2 changed_paths in
      (
        record {
          revision = revision;
          author = author';
          date = date;
          message = message';
          changed_paths = some paths;
        },
        s3,
      )

  -- log_receiver_list()
  unfoldable pub log_receiver_list :
      List LogRevision
      → Session
      → Option (apr.Hash ChangedPath)
      → ℤ
      → Option Text
      → Option Text
      → Option Text
      → List LogRevision × Session
  unfolding log_receiver
  log_receiver_list logs session changed_paths revision author date message =
      let (log, session') = log_receiver session changed_paths revision author date message in
      (logs ++ log ∷ [], session')
