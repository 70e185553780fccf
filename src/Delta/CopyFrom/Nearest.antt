-- ===== src/Delta/CopyFrom/Nearest.antt =====
-- Which local revision delta_get_local_copyfrom_rev() finds.
use rsvndump.Base.{
  ℕ, zero, suc, ◌+◌, ◌≤◌, ◌<◌, ℤ, pos, negsuc, eqz, lez, ◌≡◌, refl, ap, true, false, some, List, [],
  ◌∷◌, length, get_elem?, ◌==◌, arith, inl, inr, Bool-cases, Option-cases,
}
use rsvndump.Apr.{AprHash}
use rsvndump.Log.{LogRevision}
use rsvndump.Options.{DumpOptions}
use rsvndump.Delta.CopyFrom.{
  ltz, search_back, search_logs, revisions_of, delta_get_local_copyfrom_rev,
}

-- Among the entries from `i` up to, not including, `n` all are beyond the revision.
abbrev pub AllBeyond : ℤ → List ℤ → ℕ → ℕ → Type 0
AllBeyond original revisions i n =
    (j : ℕ) (w : ℤ) → i ≤ j → j < n → get_elem? revisions j ≡ some w → lez w original ≡ false

-- The result is the last index below `n` whose entry is not beyond the revision; -1 if all are.
pub data IsNearest (original : ℤ) (revisions : List ℤ) (n : ℕ) (result : ℤ) : Type 0 where
  at :
      (i : ℕ) (v : ℤ)
      → result ≡ pos i
      → i < n
      → get_elem? revisions i ≡ some v
      → lez v original ≡ true
      → AllBeyond original revisions (i + 1) n
      → IsNearest original revisions n result
  nowhere :
      result ≡ negsuc 0 → AllBeyond original revisions 0 n → IsNearest original revisions n result

AllBeyond-suc :
    (original : ℤ) (revisions : List ℤ) (i k : ℕ)
    → ((w : ℤ) → get_elem? revisions k ≡ some w → lez w original ≡ false)
    → AllBeyond original revisions i k
    → AllBeyond original revisions i (suc k)
AllBeyond-suc original revisions i k last rest j w lo hi e = elim (Bool-cases (j == k)) [
  | inl same ↦ let jk : j ≡ k = ground arith in last w (rw (← jk) e)
  | inr other ↦ rest j w lo (ground arith) e
]

IsNearest-suc :
    (original : ℤ) (revisions : List ℤ) (k : ℕ) (result : ℤ)
    → ((w : ℤ) → get_elem? revisions k ≡ some w → lez w original ≡ false)
    → IsNearest original revisions k result
    → IsNearest original revisions (suc k) result
IsNearest-suc original revisions k result last (at i v e lt g le rest) =
    at i v e (omega arith) g le (AllBeyond-suc original revisions (i + 1) k last rest)
IsNearest-suc original revisions k result last (nowhere e rest) =
    nowhere e (AllBeyond-suc original revisions 0 k last rest)

lez_total : (a b : ℤ) → eqz a b ≡ false → ltz b a ≡ false → lez b a ≡ false
lez_total (pos a) (pos b) p q = ground arith
lez_total (pos a) (negsuc b) p q = ground arith
lez_total (negsuc a) (pos b) p q = ground arith
lez_total (negsuc a) (negsuc b) p q = ground arith

eqz_le : (a b : ℤ) → eqz a b ≡ true → lez b a ≡ true
eqz_le (pos a) (pos b) p = ground arith
eqz_le (pos a) (negsuc b) p = cc
eqz_le (negsuc a) (pos b) p = cc
eqz_le (negsuc a) (negsuc b) p = ground arith

ltz_le : (a b : ℤ) → ltz b a ≡ true → lez b a ≡ true
ltz_le (pos a) (pos b) p = ground arith
ltz_le (pos a) (negsuc b) p = ground arith
ltz_le (negsuc a) (pos b) p = ground arith
ltz_le (negsuc a) (negsuc b) p = ground arith

here :
    (original : ℤ) (revisions : List ℤ) (k : ℕ) (v : ℤ)
    → get_elem? revisions k ≡ some v
    → lez v original ≡ true
    → IsNearest original revisions (suc k) (pos k)
here original revisions k v g le =
    at k v refl (omega arith) g le (λ j w lo hi e. absurd (omega arith))

search_back-IsNearest :
    (original : ℤ) (revisions : List ℤ) (n : ℕ)
    → IsNearest original revisions n (search_back original revisions n)
unfolding search_back
search_back-IsNearest original revisions zero = nowhere refl (λ j w lo hi e. elim hi [ ])
search_back-IsNearest original revisions (suc k) =
    let ih = search_back-IsNearest original revisions k in
    elim (Option-cases (get_elem? revisions k)) [
      | inl e ↦ rw (e, search_back) (IsNearest-suc original revisions k _ (λ w x. cc) ih)
      | inr (v, e) ↦ elim (Bool-cases (eqz original v)) [
        | inl same ↦
            rw (e, same, search_back) (here original revisions k v e (eqz_le original v same))
        | inr other ↦ elim (Bool-cases (ltz v original)) [
          | inl less ↦
              rw (e, other, less, search_back)
                (here original revisions k v e (ltz_le original v less))
          | inr more ↦
              rw (e, other, more, search_back)
                (IsNearest-suc original revisions k _
                  (λ w x. let vw : v ≡ w = cc in rw (← vw) (lez_total original v other more)) ih)
        ]
      ]
    ]

module _ ⦃apr : AprHash⦄ where
  length-revisions_of : (logs : List LogRevision) → length (revisions_of logs) ≡ length logs
  unfolding revisions_of
  length-revisions_of [] = refl
  length-revisions_of (l ∷ ls) = ap suc (length-revisions_of ls)

  -- Without --keep-revnums, and with at least one log, delta_get_local_copyfrom_rev() gives the last
  -- index, the newest log left aside, whose revision is not beyond the wanted one, and -1 if there
  -- is none.
  pub delta_get_local_copyfrom_rev-IsNearest :
      (original : ℤ) (opts : DumpOptions) (log : LogRevision) (logs : List LogRevision)
      → opts.flags.keep_revnums ≡ false
      → IsNearest original
          (revisions_of (log ∷ logs))
          (length logs)
          (delta_get_local_copyfrom_rev original opts (log ∷ logs))
  unfolding delta_get_local_copyfrom_rev search_logs revisions_of
  delta_get_local_copyfrom_rev-IsNearest original opts log logs off =
      rw (off, ← length-revisions_of logs) (search_back-IsNearest original _ _)
