-- ===== src/Log/Fetch.antt =====
-- log_get_range(), log_fetch_single() and log_fetch_all() of src/log.c. svn_ra_get_log() is a
-- parameter: it lists the calls of its callback.
pub mod Listed
use rsvndump.Base.{
  ℕ, Text, ℤ, Option, none, some, List, [], ◌∷◌, ◌++◌, Status, success, failure, ◌>>=◌,
}
use rsvndump.Apr.{AprHash}
use rsvndump.Session.{Obfuscation, Session}
use rsvndump.Log.{ChangedPath, LogRevision}
use rsvndump.Log.Receiver.{log_receiver, log_receiver_list}

module _ ⦃apr : AprHash⦄ where
  -- the arguments of a callback of svn_ra_get_log()
  pub record Received : Type 0 where
    pub changed_paths : Option (apr.Hash ChangedPath)
    pub revision : ℤ
    pub author : Option Text
    pub date : Option Text
    pub message : Option Text

  -- svn_ra_get_log() from a revision to another, at most so many entries, or all of them for 0;
  -- `none` is an error.
  pub record LogServer : Type 0 where
    pub get_log : ℤ → ℤ → ℕ → Option (List Received)

  -- log_receiver_revnum(): the revision that was received last
  pub log_receiver_revnum : Option ℤ → List Received → Option ℤ
  log_receiver_revnum revnum [] = revnum
  log_receiver_revnum revnum (r ∷ l) = log_receiver_revnum (some r.revision) l

  -- The first and the last revision; `none` is an error, or a number that is never set.
  pub log_get_range : ⦃server : LogServer⦄ → ℤ → ℤ → Option (ℤ × ℤ)
  unfolding log_receiver_revnum
  log_get_range ⦃server⦄ start end = server.get_log start end 1 >>= λ first.
      log_receiver_revnum none first >>= λ start'. server.get_log end start' 1 >>= λ last.
      log_receiver_revnum (some start') last >>= λ end'. some (start', end')

module _ ⦃apr : AprHash⦄ ⦃obf : Obfuscation⦄ where
  -- the log that was received last
  unfoldable pub receive_last :
      Session → Option LogRevision → List Received → Option LogRevision × Session
  receive_last session log [] = (log, session)
  receive_last session log (r ∷ l) =
      let (log', session') =
        log_receiver session r.changed_paths r.revision r.author r.date r.message in
      receive_last session' (some log') l

  -- `none` is an error, or a log that is never set.
  unfoldable pub log_fetch_single :
      ⦃server : LogServer⦄ → Session → ℤ → ℤ → Option LogRevision × Session
  unfolding receive_last
  log_fetch_single ⦃server⦄ session rev end = elim (server.get_log rev end 1) [
    | none ↦ (none, session)
    | some l ↦ receive_last session none l
  ]

  pub receive_all : List LogRevision → Session → List Received → List LogRevision × Session
  receive_all logs session [] = (logs, session)
  receive_all logs session (r ∷ l) =
      let (logs', session') =
        log_receiver_list logs session r.changed_paths r.revision r.author r.date r.message in
      receive_all logs' session' l

  pub log_fetch_all :
      ⦃server : LogServer⦄
      → Session
      → ℤ
      → ℤ
      → List LogRevision
      → Status × List LogRevision × Session
  unfolding receive_all
  log_fetch_all ⦃server⦄ session start end logs = elim (server.get_log start end 0) [
    | none ↦ (failure, logs, session)
    | some l ↦ let (logs', session') = receive_all logs session l in (success, logs', session')
  ]
