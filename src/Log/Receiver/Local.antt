-- ===== src/Log/Receiver/Local.antt =====
-- Which entries of a log are kept, and under which path.
use rsvndump.Base.{
  ◌<◌, Text, text_eq, text_eq_iff, text_eq_refl, ℤ, ◌≡◌, ◌↔◌, refl, ap, sym, ◌∙◌, true, false, not,
  ◌&&◌, ltb, ◌==◌, starts_with, Option, none, some, List, [], ◌∷◌, ◌++◌, length, drop, get_elem?,
  ◌>>=◌, All, arith, Bool-cases, inl, inr,
}
use native.Mathlib.Numerals.{add-one}
use rsvndump.Apr.{AprHash, find, Distinct}
use rsvndump.Session.{Obfuscation, Session, session_obfuscate, session_obfuscate_once}
use rsvndump.Log.{ChangedPath, LogRevision}
use rsvndump.Log.Receiver.{
  in_prefix, strip_slash, local_key, strip_source, keep_path, receive_entry, copy_paths,
  receive_paths, log_receiver,
}

-- The path in the repository of a path of the session.
abbrev pub repository_path : Text → Text → Text
repository_path [] path = b'/' ∷ path
repository_path (c ∷ prefix) path = b'/' ∷ (c ∷ prefix ++ b'/' ∷ path)

abbrev pub IsAbsolute : Text → Type 0
IsAbsolute [] = ⊥
IsAbsolute (c ∷ s) = c ≡ b'/'

-- What is behind a prefix: nothing, or a slash and the path.
after_prefix :
    (p q path : Text)
    → 0 < length path
    → ((starts_with p q
            && not (
                ltb (length p) (length q)
                && not (elim (get_elem? q (length p)) [ none ↦ false | some d ↦ d == b'/' ]))
          ≡ true)
        × (strip_slash (drop (length p) q) ≡ path))
      ↔ (q ≡ p ++ b'/' ∷ path)
unfolding starts_with strip_slash
after_prefix [] [] path h = ((λ x. ground (arith, h)), (λ x. ground arith))
after_prefix [] (d ∷ q) path h = ground (arith, h)
after_prefix (c ∷ p) [] path h = ground (arith, h)
after_prefix (c ∷ p) (d ∷ q) path h = ground (arith, after_prefix p q path h)

local_key_iff :
    (prefix key path : Text)
    → IsAbsolute key
    → 0 < length path
    → (local_key prefix key ≡ some path) ↔ (key ≡ repository_path prefix path)
unfolding local_key in_prefix strip_slash
local_key_iff prefix [] path a h = absurd a
local_key_iff [] (c ∷ s) path a h = unfold starts_with in ground (arith, a)
local_key_iff (d ∷ p) (c ∷ s) path a h =
    rw (add-one (length (d ∷ p))) (ground (arith, a, after_prefix (d ∷ p) s path h))

module _ ⦃apr : AprHash⦄ ⦃obf : Obfuscation⦄ where
  -- What is kept of an entry.
  abbrev pub kept_entry : ChangedPath → ChangedPath
  kept_entry v = record v { copyfrom_path = strip_source v.copyfrom_path }

  plain_name :
      (s : Session) (o : Option Text) → s.obfuscate ≡ false → session_obfuscate s o ≡ (o, s)
  unfolding session_obfuscate
  plain_name s none e = refl
  plain_name s (some t) e = simp (session_obfuscate, e) refl

  once_plain :
      (s : Session) (o : Option Text) → s.obfuscate ≡ false → session_obfuscate_once s o ≡ (o, s)
  unfolding session_obfuscate_once
  once_plain s none e = refl
  once_plain s (some t) e = simp (session_obfuscate_once, e) refl

  put_local : apr.Hash ChangedPath → Option Text → ChangedPath → apr.Hash ChangedPath
  put_local kept none v = kept
  put_local kept (some path) v = apr.put kept path (some v)

  keep_path-put_local :
      (s : Session) (kept : apr.Hash ChangedPath) (o : Option Text) (v : ChangedPath)
      → s.obfuscate ≡ false
      → keep_path s kept o v ≡ (put_local kept o (kept_entry v), s)
  unfolding keep_path put_local
  keep_path-put_local s kept none v e = refl
  keep_path-put_local s kept (some x) v e =
      rw (keep_path, plain_name s (strip_source v.copyfrom_path) e) refl

  receive_entry-put_local :
      (s : Session) (kept : apr.Hash ChangedPath) (key : Text) (v : ChangedPath)
      → s.obfuscate ≡ false
      → receive_entry s kept key v ≡ (put_local kept (local_key s.prefix key) (kept_entry v), s)
  unfolding receive_entry
  receive_entry-put_local s kept key v e =
      rw (receive_entry, plain_name s (some key) e)
        (keep_path-put_local s kept (local_key s.prefix key) v e)

  copy_entry :
      (s : Session) (kept : apr.Hash ChangedPath) (key : Text) (v : ChangedPath)
      (l : List (Text × ChangedPath))
      → s.obfuscate ≡ false
      → copy_paths s kept ((key, v) ∷ l)
        ≡ copy_paths s (put_local kept (local_key s.prefix key) (kept_entry v)) l
  unfolding copy_paths
  copy_entry s kept key v l e =
      ap (λ (x : apr.Hash ChangedPath × Session). copy_paths x.1 x.0 l)
        (receive_entry-put_local s kept key v e)

  put_local-hit :
      (kept : apr.Hash ChangedPath) (path : Text) (v : ChangedPath)
      → apr.get (put_local kept (some path) v) path ≡ some v
  unfolding put_local
  put_local-hit kept path v = apr.get-put kept path path (some v) ∙ rw (text_eq_refl path) refl

  put_local-miss :
      (kept : apr.Hash ChangedPath) (o : Option Text) (path : Text) (v : ChangedPath)
      → ¬ (o ≡ some path)
      → apr.get (put_local kept o v) path ≡ apr.get kept path
  unfolding put_local
  put_local-miss kept none path v n = refl
  put_local-miss kept (some k) path v n =
      ground (arith, apr.get-put kept k path (some v), text_eq_iff k path, n)

  or_get_cong :
      (o x y : Option ChangedPath)
      → x ≡ y
      → (elim o [ none ↦ x | some v ↦ some (kept_entry v) ])
        ≡ elim o [ none ↦ y | some v ↦ some (kept_entry v) ]
  or_get_cong none x y e = e
  or_get_cong (some v) x y e = refl

  -- What a path of the session has after the loop.
  get-copy_paths :
      (s : Session) (kept : apr.Hash ChangedPath) (l : List (Text × ChangedPath)) (path : Text)
      → s.obfuscate ≡ false
      → Distinct l
      → All (λ e. IsAbsolute e.0) l
      → 0 < length path
      → apr.get (copy_paths s kept l).0 path ≡ elim (find (repository_path s.prefix path) l) [
        | none ↦ apr.get kept path
        | some v ↦ some (kept_entry v)
      ]
  get-copy_paths s kept [] path e d a h = unfold copy_paths in refl
  get-copy_paths s kept ((key, v) ∷ l) path e d a h =
      let ih =
        get-copy_paths s (put_local kept (local_key s.prefix key) (kept_entry v)) l path e d.1 a.1
          h in
      let i = local_key_iff s.prefix key path a.0 h in
      rw (copy_entry s kept key v l e) (
        ih ∙ elim (Bool-cases (text_eq key (repository_path s.prefix path))) [
          | inl same ↦
              let k = (text_eq_iff key (repository_path s.prefix path)).0 same in
              let gone : find (repository_path s.prefix path) l ≡ none =
                ap (λ t. find t l) (sym k) ∙ d.0 in
              rw (same, gone, i.1 k) (put_local-hit kept path (kept_entry v))
          | inr other ↦ rw other (
              or_get_cong (find (repository_path s.prefix path) l) _ _ (
                put_local-miss kept (local_key s.prefix key) path (kept_entry v) (λ x.
                  ground (arith, i.0 x, other, text_eq_iff key (repository_path s.prefix path)))))
        ])

  -- What log_receiver() says of a path.
  pub logged : LogRevision → Text → Option ChangedPath
  logged log path = log.changed_paths >>= λ h. apr.get h path

  kept_option :
      (o p : Option ChangedPath)
      → o ≡ p
      → elim o [ none ↦ none | some v ↦ some (kept_entry v) ] ≡ (p >>= λ v. some (kept_entry v))
  kept_option none p e = rw (← e) refl
  kept_option (some v) p e = rw (← e) refl

  -- Where nothing is obfuscated and the changed paths are absolute, the log has, for each path that
  -- is not empty, the change of that path in the repository, the session's prefix before it, with
  -- its copy source without a leading slash, and nothing if the path was not changed; the revision,
  -- the author, the date and the message are those of the call.
  pub log_receiver-logged :
      (s : Session) (changed : apr.Hash ChangedPath) (revision : ℤ)
      (author date message : Option Text) (path : Text)
      → s.obfuscate ≡ false
      → All (λ e. IsAbsolute e.0) (apr.entries changed)
      → 0 < length path
      → (logged (log_receiver s (some changed) revision author date message).0 path
          ≡ (apr.get changed (repository_path s.prefix path) >>= λ v. some (kept_entry v)))
        × ((log_receiver s (some changed) revision author date message).0.revision ≡ revision)
        × ((log_receiver s (some changed) revision author date message).0.author ≡ author)
        × ((log_receiver s (some changed) revision author date message).0.date ≡ date)
        × ((log_receiver s (some changed) revision author date message).0.message ≡ message)
  unfolding log_receiver receive_paths logged
  log_receiver-logged s changed revision author date message path e a h =
      rw (log_receiver, once_plain s author e)
        (rw (once_plain s message e) (
          get-copy_paths s apr.make (apr.entries changed) path e (apr.Distinct-entries changed) a h
              ∙ or_get_cong (find (repository_path s.prefix path) (apr.entries changed)) _ _
                  (apr.get-make path)
              ∙ kept_option _ _ (apr.find-entries changed (repository_path s.prefix path)),
          refl,
          refl,
          refl,
          refl,
        ))
