-- ===== src/Property/Format.antt =====
-- property_strlen(), property_del_strlen(), property_dump() and property_del_dump() of
-- src/property.c. What they print is their result; NULL is `none`.
pub mod Reading
use rsvndump.Base.{
  ℕ, zero, suc, ◌+◌, Text, ◌≡◌, refl, ap, sym, ◌∙◌, Bool, true, false, Option, none, some, List, [],
  ◌∷◌, ◌++◌, length, length-append, append_assoc, codes, decimal, arith,
}

-- A line of text.
abbrev pub line : Text → Text
line s = s ++ b'\n' ∷ []

-- apr_psprintf(pool, "K %lu\n%s\nV 0\n\n", ...) and its sibling with a value
unfoldable pub format_property : Text → Option Text → Text
format_property key none =
    codes "K " ++ (decimal (length key) ++ (codes "\n" ++ (key ++ codes "\nV 0\n\n")))
format_property key (some value) =
    codes "K "
    ++ (decimal (length key)
        ++ (codes "\n"
            ++ (key
                ++ (codes "\nV "
                    ++ (decimal (length value) ++ (codes "\n" ++ (value ++ codes "\n")))))))

unfoldable pub property_strlen : Option Text → Option Text → ℕ
unfolding format_property
property_strlen none value = 0
property_strlen (some key) value = length (format_property key value)

pub property_del_strlen : Option Text → ℕ
property_del_strlen none = 0
property_del_strlen (some key) =
    length (codes "D " ++ (decimal (length key) ++ (codes "\n" ++ (key ++ codes "\n"))))

-- the value, after the key is printed
pub dump_value : Option Text → Text
dump_value (some value) = line (codes "V " ++ decimal (length value)) ++ line value
dump_value none = codes "V 0\n\n"

unfoldable pub property_dump : Option Text → Option Text → Text
unfolding dump_value
property_dump none value = []
property_dump (some key) value =
    line (codes "K " ++ decimal (length key)) ++ (line key ++ dump_value value)

pub property_del_dump : Option Text → Text
property_del_dump none = []
property_del_dump (some key) = line (codes "D " ++ decimal (length key)) ++ line key
