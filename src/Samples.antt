-- ===== src/Samples.antt =====
-- Small implementations of the parameters, which show that what is asked of them can be met: a hash
-- table as a list of pairs, a tree as a list of texts, a compressor that copies.
use rsvndump.Base.{
  codes, ◌≢◌, ◌<◌, text_eq_refl, Bool-cases, ◌∙◌, inl, inr, ℕ, ◌+◌, ◌*◌, Text, text_eq, text_eq_iff,
  starts_with, ℤ, pos, negsuc, ◌≡◌, ◌↔◌, refl, sym, Bool, true, false, ◌&&◌, ◌||◌, Option, none,
  some, List, [], ◌∷◌, length, if◌then◌else◌, arith,
}
use rsvndump.Apr.{AprHash, AprStrings, find, Distinct}
use rsvndump.Critbit.{Critbit, elem}
use rsvndump.Snappy.{Snappy}
use rsvndump.Stdio.{File}
use rsvndump.Files.{Files}
use rsvndump.Svn.{SvnCalls}

module _ {V : Type 0} where
  without : Text → List (Text × V) → List (Text × V)
  without k [] = []
  without k ((j, v) ∷ l) = let rest = without k l in if text_eq j k then rest else (j, v) ∷ rest

  unfoldable pub table_put : List (Text × V) → Text → Option V → List (Text × V)
  unfolding without
  table_put l k none = without k l
  table_put l k (some v) = (k, v) ∷ without k l

  find-without :
      (k j : Text) (l : List (Text × V))
      → find j (without k l) ≡ (if text_eq k j then none else find j l)
  unfolding without
  find-without k j [] = ground arith
  find-without k j ((i, v) ∷ l) =
      ground (arith, find-without k j l, text_eq_iff i k, text_eq_iff i j, text_eq_iff k j)

  pub find-table_put :
      (l : List (Text × V)) (k j : Text) (o : Option V)
      → find j (table_put l k o) ≡ (if text_eq k j then o else find j l)
  unfolding table_put
  find-table_put l k j none = find-without k j l
  find-table_put l k j (some v) = ground (arith, find-without k j l)

module _ {V : Type 0} where
  Distinct-without : (k : Text) (l : List (Text × V)) → Distinct l → Distinct (without k l)
  unfolding without
  Distinct-without k [] h = tt
  Distinct-without k ((j, v) ∷ l) h = elim (Bool-cases (text_eq j k)) [
    | inl e ↦ rw e (Distinct-without k l h.1)
    | inr e ↦ rw e (ground (arith, find-without k j l, h.0), Distinct-without k l h.1)
  ]

  unfoldable pub first_ones : List (Text × V) → List (Text × V)
  unfolding without
  first_ones [] = []
  first_ones ((k, v) ∷ l) = (k, v) ∷ without k (first_ones l)

  pub Distinct-first_ones : (l : List (Text × V)) → Distinct (first_ones l)
  unfolding first_ones
  Distinct-first_ones [] = tt
  Distinct-first_ones ((k, v) ∷ l) = (
    find-without k k (first_ones l) ∙ rw (text_eq_refl k) refl,
    Distinct-without k (first_ones l) (Distinct-first_ones l),
  )

  pub find-first_ones : (l : List (Text × V)) (k : Text) → find k (first_ones l) ≡ find k l
  unfolding first_ones
  find-first_ones [] k = refl
  find-first_ones ((j, v) ∷ l) k =
      ground (arith, find-without j k (first_ones l), find-first_ones l k)

instance abbrev pub list_hash : AprHash
list_hash = record {
  Hash = λ V. List (Text × V);
  make = [];
  get = λ h k. find k h;
  put = table_put;
  entries = first_ones;
  get-make = λ k. refl;
  get-put = find-table_put;
  Distinct-entries = Distinct-first_ones;
  find-entries = find-first_ones;
}

unfoldable pub one_byte : ℤ → Text
one_byte (pos n) = (2 * n) ∷ []
one_byte (negsuc n) = (2 * n + 1) ∷ []

pub one_byte_injective : (a b : ℤ) → one_byte a ≡ one_byte b → a ≡ b
unfolding one_byte
one_byte_injective (pos a) (pos b) h = ground arith
one_byte_injective (pos a) (negsuc b) h = ground arith
one_byte_injective (negsuc a) (pos b) h = ground arith
one_byte_injective (negsuc a) (negsuc b) h = ground arith

instance abbrev pub byte_strings : AprStrings
byte_strings = record { itoa = one_byte; itoa_injective = one_byte_injective }

unfoldable pub drop_text : Text → List Text → List Text
drop_text p [] = []
drop_text p (q ∷ l) = let rest = drop_text p l in if text_eq p q then rest else q ∷ rest

unfoldable pub with_prefix : Text → List Text → List Text
with_prefix p [] = []
with_prefix p (q ∷ l) = let rest = with_prefix p l in if starts_with p q then q ∷ rest else rest

unfoldable pub list_insert : List Text → Text → ℕ × List Text
list_insert l p = if elem p l then (1, l) else (0, p ∷ l)

pub elem-drop_text :
    (l : List Text) (p q : Text)
    → elem q (drop_text p l) ≡ (if text_eq p q then false else elem q l)
unfolding drop_text
elem-drop_text [] p q = ground arith
elem-drop_text (x ∷ l) p q =
    ground (arith, elem-drop_text l p q, text_eq_iff p x, text_eq_iff p q, text_eq_iff x q)

pub elem-with_prefix :
    (l : List Text) (p q : Text) → elem q (with_prefix p l) ≡ elem q l && starts_with p q
unfolding with_prefix
elem-with_prefix [] p q = refl
elem-with_prefix (x ∷ l) p q = ground (arith, elem-with_prefix l p q, text_eq_iff x q)

pub insert-status : (l : List Text) (p : Text) → ((list_insert l p).0 ≡ 0) ↔ (elem p l ≡ false)
unfolding list_insert
insert-status l p = ground arith

pub elem-insert :
    (l : List Text) (p q : Text) → elem q (list_insert l p).1 ≡ text_eq p q || elem q l
unfolding list_insert
elem-insert l p q = ground (arith, text_eq_iff p q)

unfoldable pub is_rooted : List Text → Bool
is_rooted [] = false
is_rooted (x ∷ l) = true

pub elem_unrooted : (l : List Text) (p : Text) → is_rooted l ≡ false → elem p l ≡ false
unfolding is_rooted
elem_unrooted [] p h = refl
elem_unrooted (x ∷ l) p h = cc

instance abbrev pub list_tree : Critbit
list_tree = record {
  Tree = List Text;
  tree_make = [];
  tree_clear = λ l. [];
  rooted = is_rooted;
  contains = λ l p. elem p l;
  insert = list_insert;
  delete = λ l p. (if elem p l then 0 else 1, drop_text p l);
  walk_prefixed = λ l p. with_prefix p l;
  contains-tree_make = λ p. refl;
  contains-tree_clear = λ t p. refl;
  contains_rooted = elem_unrooted;
  insert_status = insert-status;
  contains-insert = elem-insert;
  contains-delete = elem-drop_text;
  elem-walk_prefixed = elem-with_prefix;
}

pub length_copied : (d c : Text) → some d ≡ some c → some (length c) ≡ some (length d)
length_copied d c e = ground arith

instance abbrev pub copying : Snappy
copying = record {
  compress = λ d. some d;
  uncompressed_length = λ c. some (length c);
  uncompress = λ c. some c;
  uncompressed_length-compress = length_copied;
  uncompress-compress = λ d c e. sym e;
}

-- An empty file on a device with room for 4096 bytes.
abbrev pub new_file : File
new_file = record { bytes = []; offset = 0; room = 4096; seekable = true }

-- A file system as a list of files; a delta is the text that it leads to.
unfoldable pub file_size_of : Option Text → Option ℕ
file_size_of none = none
file_size_of (some d) = some (length d)

pub file_size-read :
    (fs : List (Text × Text)) (p d : Text)
    → find p fs ≡ some d
    → file_size_of (find p fs) ≡ some (length d)
file_size-read fs p d h = rw h (unfold file_size_of in refl)

instance abbrev pub list_files : Files
list_files = record {
  Fs = List (Text × Text);
  Windows = Text;
  make_dirs = λ fs p. some fs;
  mktemp = λ fs p. some (p, (p, []) ∷ fs);
  read = λ fs p. find p fs;
  size = λ fs p. file_size_of (find p fs);
  write = λ fs p d. table_put fs p (some d);
  remove = λ fs p. table_put fs p none;
  deltify = λ source target. some target;
  patch = λ source windows. some (windows, windows);
  size-read = file_size-read;
}

-- Paths with one component, and names that are all regular.
pub no_dirs_shorter : (c : ℕ) (s : Text) → c ≢ b'/' → 0 < length (c ∷ s)
no_dirs_shorter c s h = omega arith

pub no_dirs_relative : (c : ℕ) (s : Text) → c ≢ b'/' → (t : Text) → [] ≢ b'/' ∷ t
no_dirs_relative c s h t e = cc

instance abbrev pub flat_paths : SvnCalls
flat_paths = record {
  regular = λ name. true;
  digest = λ sum. sum;
  dirname = λ path. [];
  is_url = λ arg. starts_with (codes "http") arg;
  dirname_shorter = no_dirs_shorter;
  dirname_relative = no_dirs_relative;
}
