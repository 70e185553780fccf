-- ===== src/Log/Fetch/Listed.antt =====
-- The logs that are fetched are those that the server lists, in its order.
use rsvndump.Base.{
  ℤ, ◌≡◌, refl, ap, sym, ◌∙◌, some, List, [], ◌∷◌, ◌++◌, append_assoc, append-nil, success,
}
use rsvndump.Apr.{AprHash}
use rsvndump.Session.{Obfuscation, Session}
use rsvndump.Log.{LogRevision}
use rsvndump.Log.Receiver.{log_receiver, log_receiver_list}
use rsvndump.Log.Fetch.{Received, LogServer, receive_all, log_fetch_all}

module _ ⦃apr : AprHash⦄ where
  -- the revisions of logs, and of what is received
  abbrev pub log_revisions : List LogRevision → List ℤ
  log_revisions [] = []
  log_revisions (r ∷ l) = r.revision ∷ log_revisions l

  abbrev pub received_revisions : List Received → List ℤ
  received_revisions [] = []
  received_revisions (r ∷ l) = r.revision ∷ received_revisions l

  log_revisions-append :
      (l m : List LogRevision) → log_revisions (l ++ m) ≡ log_revisions l ++ log_revisions m
  log_revisions-append [] m = refl
  log_revisions-append (r ∷ l) m = ap (λ t. r.revision ∷ t) (log_revisions-append l m)

module _ ⦃apr : AprHash⦄ ⦃obf : Obfuscation⦄ where
  log_revisions-log_receiver_list :
      (logs : List LogRevision) (s : Session) (r : Received)
      → log_revisions
          (log_receiver_list logs s r.changed_paths r.revision r.author r.date r.message).0
        ≡ log_revisions logs ++ r.revision ∷ []
  unfolding log_receiver_list log_receiver
  log_revisions-log_receiver_list logs s r = log_revisions-append logs _

  log_revisions-receive_all :
      (l : List Received) (logs : List LogRevision) (s : Session)
      → log_revisions (receive_all logs s l).0 ≡ log_revisions logs ++ received_revisions l
  unfolding receive_all
  log_revisions-receive_all [] logs s = sym (append-nil (log_revisions logs))
  log_revisions-receive_all (r ∷ l) logs s =
      log_revisions-receive_all l _ _
      ∙ ap (λ t. t ++ received_revisions l) (log_revisions-log_receiver_list logs s r)
      ∙ append_assoc (log_revisions logs) (r.revision ∷ []) (received_revisions l)

  -- Where the server lists the logs, log_fetch_all() succeeds and puts one log for each of them
  -- behind those that are there, with its revision and in the server's order.
  pub log_revisions-log_fetch_all :
      ⦃server : LogServer⦄ (s : Session) (start end : ℤ) (logs : List LogRevision)
      (l : List Received)
      → server.get_log start end 0 ≡ some l
      → ((log_fetch_all s start end logs).0 ≡ success)
        × (log_revisions (log_fetch_all s start end logs).1
            ≡ log_revisions logs ++ received_revisions l)
  unfolding log_fetch_all
  log_revisions-log_fetch_all s start end logs l e =
      rw (log_fetch_all, e) (refl, log_revisions-receive_all l logs s)
