-- ===== src/Dump/Rounds/Ends.antt =====
-- The end of the loop of dump() of src/dump.c, where each log is fetched when its round begins.
use rsvndump.Base.{
  Status-cases, ℕ, zero, suc, ◌+◌, ◌-◌, ◌≤◌, ◌<◌, ℤ, pos, incz, lez, leb, ◌≡◌, refl, ap, ◌∙◌, subst,
  Bool, true, false, none, some, Option, Option-cases, List, [], ◌∷◌, All, Status, success, failure,
  arith, inl, inr, Bool-cases,
}
use rsvndump.Apr.{AprHash, AprStrings}
use rsvndump.Critbit.{Critbit}
use rsvndump.Snappy.{Snappy}
use rsvndump.Svn.{DumpNames}
use rsvndump.Log.{LogRevision}
use rsvndump.Log.Receiver.{log_receiver}
use rsvndump.Log.Fetch.{Received, LogServer, receive_last, log_fetch_single}
use rsvndump.Session.{Obfuscation, Session}
use rsvndump.Dump.Loop.{Differ, DumpState, fetch_log, dump_round, distance}
use rsvndump.Dump.Loop.Ends.{end-dump_round}
use rsvndump.Dump.Rounds.{dump_rounds, dump_loop}

-- a revision number from `first` on
pub record From (first : ℕ) (n : ℤ) : Type 0 where
  pub number : ℕ
  pub is_number : n ≡ pos number
  pub from : first ≤ number

le-lez : (x y : ℤ) (n e : ℕ) → x ≡ pos n → y ≡ pos e → lez x y ≡ true → n ≤ e
le-lez x y n e at to h =
    let same : leb n e ≡ true =
      subst (λ z. lez z (pos e) ≡ true) at (subst (λ z. lez x z ≡ true) to h) in
    ground (arith, same)

module _ ⦃apr : AprHash⦄ ⦃obf : Obfuscation⦄ where
  -- the revision of a log, if there is one
  abbrev LogFrom : ℕ → Option LogRevision → Type 0
  LogFrom first none = Unit
  LogFrom first (some log) = From first log.revision

  receive_last-LogFrom :
      (first : ℕ) (l : List Received) (session : Session) (log : Option LogRevision)
      → LogFrom first log
      → All (λ (r : Received). From first r.revision) l
      → LogFrom first (receive_last session log l).0
  unfolding receive_last log_receiver
  receive_last-LogFrom first [] session log h t = h
  receive_last-LogFrom first (r ∷ l) session log h t = receive_last-LogFrom first l _ _ t.0 t.1

  log_fetch_single-LogFrom :
      ⦃server : LogServer⦄ (first : ℕ) (session : Session) (start end : ℤ)
      → ((l : List Received)
          → server.get_log start end 1 ≡ some l
          → All (λ (r : Received). From first r.revision) l)
      → LogFrom first (log_fetch_single session start end).0
  unfolding log_fetch_single
  log_fetch_single-LogFrom ⦃server⦄ first session start end h =
      elim (Option-cases (server.get_log start end 1)) [
        | inl e ↦ rw (log_fetch_single, e) tt
        | inr (l, e) ↦
            rw (log_fetch_single, e) (receive_last-LogFrom first l session none tt (h l e))
      ]

module _ ⦃apr : AprHash⦄ ⦃cb : Critbit⦄ ⦃obf : Obfuscation⦄ ⦃server : LogServer⦄ where
  fetch_log-LogFrom :
      (first : ℕ) (session : Session) (st : DumpState)
      → LogFrom first (log_fetch_single session st.global_rev st.opts.end).0
      → LogFrom first (fetch_log session false st).0
        × ((fetch_log session false st).1.opts.end ≡ st.opts.end)
  unfolding fetch_log
  fetch_log-LogFrom first session st h =
      elim (Option-cases (log_fetch_single session st.global_rev st.opts.end).0) [
        | inl e ↦ rw (fetch_log, e) (tt, refl)
        | inr (log, e) ↦ rw (fetch_log, e) (subst (LogFrom first) e h, refl)
      ]

module _ ⦃names : DumpNames⦄ ⦃apr : AprHash⦄ ⦃strings : AprStrings⦄ ⦃cb : Critbit⦄ ⦃sn : Snappy⦄
    ⦃obf : Obfuscation⦄ ⦃server : LogServer⦄ ⦃differ : Differ⦄ where
  -- The do-while loop, round by round, with what it returns.
  pub data Runs (fetched : Bool) : Session → DumpState → Status × DumpState → Type 0 where
    no_log :
        (session : Session) (st : DumpState)
        → (fetch_log session fetched st).0 ≡ none
        → Runs fetched session st (failure, (fetch_log session fetched st).1)
    failed :
        (session : Session) (st : DumpState) (log : LogRevision)
        → (fetch_log session fetched st).0 ≡ some log
        → (dump_round (fetch_log session fetched st).1 log).0 ≡ failure
        → Runs fetched session st (failure, (dump_round (fetch_log session fetched st).1 log).1)
    last :
        (session : Session) (st st' : DumpState) (log : LogRevision)
        → (fetch_log session fetched st).0 ≡ some log
        → dump_round (fetch_log session fetched st).1 log ≡ (success, st')
        → lez st'.global_rev st'.opts.end ≡ false
        → Runs fetched session st (success, st')
    next :
        (session : Session) (st st' : DumpState) (log : LogRevision) (x : Status × DumpState)
        → (fetch_log session fetched st).0 ≡ some log
        → dump_round (fetch_log session fetched st).1 log ≡ (success, st')
        → lez st'.global_rev st'.opts.end ≡ true
        → Runs fetched (fetch_log session fetched st).2 st' x
        → Runs fetched session st x

  dump_rounds-Runs :
      (fuel a e : ℕ) (session : Session) (st : DumpState)
      → ((a e : ℕ) (l : List Received)
          → a ≤ e
          → server.get_log (pos a) (pos e) 1 ≡ some l
          → All (λ (r : Received). From a r.revision) l)
      → st.global_rev ≡ pos a
      → st.opts.end ≡ pos e
      → a ≤ e
      → e < a + fuel
      → Runs false session st (dump_rounds fuel session false st)
  unfolding dump_rounds
  dump_rounds-Runs zero a e session st from at to le lt = absurd (omega (arith, le, lt))
  dump_rounds-Runs (suc fuel) a e session st from at to le lt =
      let here : LogFrom a (log_fetch_single session st.global_rev st.opts.end).0 =
        rw (at, to) (log_fetch_single-LogFrom a session (pos a) (pos e) (λ l. from a e l le)) in
      let f = fetch_log-LogFrom a session st here in
      let st1 = (fetch_log session false st).1 in
      elim (Option-cases (fetch_log session false st).0) [
        | inl g ↦ rw (g, dump_rounds) (no_log session st g)
        | inr (log, g) ↦
            let log_from : From a log.revision = subst (LogFrom a) g f.0 in
            elim (Status-cases (dump_round st1 log).0) [
              | inr bad ↦ rw (g, dump_rounds) (rw bad (failed session st log g bad))
              | inl ok ↦
                  let st2 = (dump_round st1 log).1 in
                  let (kept, after) = end-dump_round st1 log ok in
                  let at' : st2.global_rev ≡ pos (log_from.number + 1) =
                    after ∙ ap incz log_from.is_number in
                  let same : dump_round st1 log ≡ (success, st2) = ap (λ s. (s, st2)) ok in
                  let to' : st2.opts.end ≡ pos e = kept ∙ f.1 ∙ to in
                  elim (Bool-cases (lez st2.global_rev st2.opts.end)) [
                    | inr over ↦
                        rw (g, dump_rounds) (rw ok (rw over (last session st st2 log g same over)))
                    | inl more ↦
                        let le' = le-lez _ _ (log_from.number + 1) e at' to' more in
                        rw (g, dump_rounds)
                          (rw ok (
                            rw more (
                              next session st st2 log _ g same more (
                                dump_rounds-Runs fuel (log_from.number + 1) e
                                  (fetch_log session false st).2 st2 from at' to' le'
                                  (omega (arith, log_from.from, lt))))))
                  ]
            ]
      ]

  -- The remote side lists no revision before the one that is asked for, as long as that is not
  -- beyond the last one. Then the loop of a dump whose logs are not there at its start, from a
  -- revision up to its end, comes to an end within the fuel of dump_loop(): what is returned is
  -- the result of the do-while loop, which ends with a failure or beyond the last revision.
  pub dump_loop-Runs :
      (a e : ℕ) (session : Session) (st : DumpState)
      → ((a e : ℕ) (l : List Received)
          → a ≤ e
          → server.get_log (pos a) (pos e) 1 ≡ some l
          → All (λ (r : Received). From a r.revision) l)
      → st.global_rev ≡ pos a
      → st.opts.end ≡ pos e
      → a ≤ e
      → Runs false session st (dump_loop session false st)
  unfolding dump_loop distance
  dump_loop-Runs a e session st from at to le =
      let fuel : distance st.global_rev (incz st.opts.end) ≡ e + 1 - a = rw (at, to) refl in
      rw (dump_loop, fuel)
        (dump_rounds-Runs (suc (e + 1 - a)) a e session st from at to le (omega (arith, le)))
