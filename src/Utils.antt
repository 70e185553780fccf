-- ===== src/Utils.antt =====
-- utils_path_split(), utils_path_join(), utils_sort() and utils_mkstemp() of src/utils.c. qsort() by
-- strcmp() is rendered by insertion, since its contract leaves one result (Utils/Sorted).
pub mod Sorted
use rsvndump.Base.{
  ℕ, zero, suc, ◌+◌, ◌-◌, Text, text_eq, Bool, true, false, ◌&&◌, ◌||◌, ltb, ◌==◌, if◌then◌else◌,
  Option, none, some, List, [], ◌∷◌, ◌++◌, length, take, drop, get_elem?, ◌>>=◌,
}
use rsvndump.Svn.{SvnCalls}
use rsvndump.Files.{Files}

-- strcmp(a, b) <= 0
unfoldable pub text_le : Text → Text → Bool
text_le [] t = true
text_le (c ∷ s) [] = false
text_le (c ∷ s) (d ∷ t) = ltb c d || ((c == d) && text_le s t)

unfoldable pub insert_text : Text → List Text → List Text
insert_text x [] = x ∷ []
insert_text x (y ∷ l) = let rest = insert_text x l in if text_le x y then x ∷ (y ∷ l) else y ∷ rest

unfoldable pub utils_sort : List Text → List Text
unfolding insert_text
utils_sort [] = []
utils_sort (x ∷ l) = insert_text x (utils_sort l)

-- strrchr(path, '/'), as an index
unfoldable pub last_slash : Text → Option ℕ
last_slash [] = none
last_slash (c ∷ s) =
    let rest = last_slash s in
    elim rest [ some i ↦ some (suc i) | none ↦ if c == b'/' then some 0 else none ]

-- the directory and the base
pub utils_path_split : Text → Text × Text
unfolding last_slash
utils_path_split path = elim (last_slash path) [
  | none ↦ ([], path)
  | some sep ↦
      if text_eq path (b'/' ∷ [])
      then (b'/' ∷ [], b'/' ∷ [])
      else (take (if sep == 0 then 1 else sep) path, drop (suc sep) path)
]

-- Whether there is a slash at the end, and at the start. The code reads before the start of an
-- empty directory; that counts as no slash here.
unfoldable pub ends_in_slash : Text → Bool
ends_in_slash [] = false
ends_in_slash (c ∷ []) = c == b'/'
ends_in_slash (c ∷ d ∷ s) = ends_in_slash (d ∷ s)

unfoldable pub starts_with_slash : Text → Bool
starts_with_slash [] = false
starts_with_slash (c ∷ s) = c == b'/'

pub utils_path_join : Text → Text → Text
unfolding ends_in_slash starts_with_slash
utils_path_join dir base =
    if ends_in_slash dir || starts_with_slash base then dir ++ base else dir ++ (b'/' ∷ base)

-- The name that is filled in, and the file system with the new file. Of a call that fails, what it
-- has changed is not kept.
unfoldable pub utils_mkstemp :
    ⦃svn : SvnCalls⦄ ⦃files : Files⦄ → files.Fs → Text → Option (Text × files.Fs)
utils_mkstemp ⦃svn⦄ ⦃files⦄ fs name =
    files.make_dirs fs (svn.dirname name) >>= λ fs'. files.mktemp fs' name
