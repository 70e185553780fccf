-- ===== src/PathRepo/Codec/Snapshot.antt =====
-- pr_encode() serializes a whole tree as a delta that rebuilds it from nothing.
use rsvndump.Base.{
  ℕ, Text, IsText, ◌≡◌, refl, ap, sym, ◌∙◌, true, false, ◌||◌, List, [], ◌∷◌, ◌++◌, All, length,
  arith, Bool-eq_of_iff,
}
use rsvndump.Critbit.{Critbit, elem}
use rsvndump.PathRepo.Codec.{DeltaEntry, encode_entries, encode_paths, pr_tree_to_array, pr_encode}
use rsvndump.PathRepo.Codec.RoundTrip.{PathSet, after, IsDelta, length-encode_paths}
use rsvndump.PathRepo.Codec.Children.{elem-pr_tree_to_array, All-of_elem, contains_of_elem}

-- The additions that a snapshot is made of.
pub additions : List Text → List DeltaEntry
additions [] = []
additions (p ∷ l) = record { action = b'+'; path = p } ∷ additions l

encode_paths-additions : (l : List Text) → encode_paths l ≡ encode_entries (additions l)
unfolding additions encode_paths encode_entries
encode_paths-additions [] = refl
encode_paths-additions (p ∷ l) = ap (λ t. b'+' ∷ (p ++ (0 ∷ t))) (encode_paths-additions l)

additions-IsDelta : (l : List Text) → All IsText l → IsDelta (additions l)
unfolding additions
additions-IsDelta [] h = tt
additions-IsDelta (p ∷ l) h = (h.0, additions-IsDelta l h.1)

after-additions :
    (l : List Text) (s : PathSet) (q : Text) → after (additions l) s q ≡ s q || elem q l
unfolding additions
after-additions [] s q = ground arith
after-additions (p ∷ l) s q = after-additions l _ q ∙ ground arith

-- The data, of the computed length, is the serialized form of a delta from one set to another.
pub record Encodes (x : Text × ℕ) (s t : PathSet) : Type 0 where
  pub entries : List DeltaEntry
  pub is_delta : IsDelta entries
  pub counted : x.1 ≡ length x.0
  pub encoded : x.0 ≡ encode_entries entries
  pub leads : (q : Text) → t q ≡ after entries s q

module _ ⦃cb : Critbit⦄ where
  elem-contains :
      (t : cb.Tree)
      → ((q : Text) → cb.contains t q ≡ true → IsText q)
      → (q : Text) → cb.contains t q ≡ elem q (pr_tree_to_array t [])
  elem-contains t texts q =
      Bool-eq_of_iff _ _ (λ e. ground (arith, e, elem-pr_tree_to_array t [] q (texts q e)))
        (λ e. contains_of_elem t [] q e)

  -- Of a tree whose paths are C strings: what pr_encode() writes is as long as it has computed, and
  -- leads from no path to exactly those of the tree.
  pub pr_encode-Encodes :
      (t : cb.Tree)
      → ((q : Text) → cb.contains t q ≡ true → IsText q)
      → Encodes (pr_encode t) (λ _. false) (cb.contains t)
  unfolding pr_encode
  pr_encode-Encodes t texts =
      let arr = pr_tree_to_array t [] in
      record {
        entries = additions arr;
        is_delta =
            additions-IsDelta arr
              (All-of_elem IsText arr (λ q e. texts q (contains_of_elem t [] q e)));
        counted = sym (length-encode_paths arr);
        encoded = encode_paths-additions arr;
        leads = λ q. elem-contains t texts q ∙ sym (after-additions arr (λ _. false) q);
      }
