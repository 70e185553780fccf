-- ===== src/Tests/Commands.antt =====
-- Names made up by rand(), and arguments of the command line.
use rsvndump.Base.{
  ℕ, starts_with, text_eq, ◌+◌, ◌≡◌, refl, pos, negsuc, true, some, [], ◌∷◌, ◌++◌, codes, decimal,
  leb, if◌then◌else◌, success, failure, arith,
}
use rsvndump.Samples.{list_hash, flat_paths}
use rsvndump.Options.{dump_options_create}
use rsvndump.Session.Names.{Rand, pick, make_chars, make_round, is_taken, session_make_obfuscated}
use rsvndump.Session.Names.Fresh.{Found, round_name, session_make_obfuscated-Found}
use rsvndump.Main.Range.{
  start_cell, end_cell, parse_revnum, two_heads, number_head, two_numbers, or_else, scan_long,
  scan_signed, scan_digits, digits, is_digit, skip_space, is_space, scan_word, take_word, some_word,
  scan_colon, ends_in_head, is_head, lower, at_end, assign, write_cell, read_cell, after_colon,
  then_head, then_number, then_end,
}
use rsvndump.Main.Range.Printed.{parse_revnum-decimal}
use rsvndump.Main.Arguments.{
  no_arguments, parsed, failed, with_url, parse_arguments, parse_last, parse_branch, branch_of,
  flag_of, value_of, is, go_on, set_url, take_revision, set_revisions, verbose,
}

abbrev counting : Rand
counting = record { Seed = ℕ; rand = λ n. (n, n + 1) }

-- The first name is "aaa".
session_make_obfuscated-Found_example :
    Found ⦃apr = list_hash⦄ ⦃random = counting⦄ 12 (some ((codes "aaa", codes "aaa") ∷ [])) (
      session_make_obfuscated ⦃apr = list_hash⦄ ⦃random = counting⦄ 3 0
        (some ((codes "aaa", codes "aaa") ∷ [])))
unfolding is_taken round_name make_round make_chars pick text_eq
session_make_obfuscated-Found_example =
    session_make_obfuscated-Found ⦃apr = list_hash⦄ ⦃random = counting⦄ 1 3 0
      (some ((codes "aaa", codes "aaa") ∷ [])) (omega arith) refl

parse_revnum-decimal_example :
    (parse_revnum (decimal 6) start_cell end_cell (record { start = pos 0; end = negsuc 0 })
      ≡ (success, record { start = pos 5; end = pos 6 }))
    × (parse_revnum (decimal 6) end_cell end_cell (record { start = pos 0; end = negsuc 0 })
        ≡ (success, record { start = pos 0; end = pos 5 }))
    × ((parse_revnum (decimal 0) start_cell end_cell (record { start = pos 0; end = negsuc 0 })).0
        ≡ failure)
    × (parse_revnum
          (decimal 3 ++ (b':' ∷ decimal 5))
          start_cell
          end_cell
          (record { start = pos 0; end = negsuc 0 })
        ≡ (if leb 3 5 then success else failure, record { start = pos 3; end = pos 5 }))
    × (parse_revnum
          (decimal 3 ++ (b':' ∷ codes "HEAD"))
          start_cell
          end_cell
          (record { start = pos 0; end = negsuc 0 })
        ≡ (success, record { start = pos 3; end = negsuc 0 }))
parse_revnum-decimal_example = parse_revnum-decimal 3 5 (record { start = pos 0; end = negsuc 0 })

-- The options of an incremental dump, and what the loop over the arguments refuses.
incremental_arguments :
    with_url (
      parse_arguments ⦃svn = flat_paths⦄
        (codes "--incremental" ∷ codes "-r" ∷ codes "3:5" ∷ codes "http://host" ∷ [])
        no_arguments)
    ≡ parsed (record no_arguments {
      url = some (codes "http://host");
      opts = record dump_options_create {
        start = pos 3;
        end = pos 5;
        flags = record dump_options_create.flags { incremental = true };
      };
    })
unfolding with_url parse_arguments parse_last parse_branch branch_of flag_of value_of is go_on
    set_url take_revision set_revisions verbose text_eq parse_revnum two_heads number_head
    two_numbers or_else scan_long scan_signed scan_digits digits is_digit skip_space is_space
    scan_word take_word some_word scan_colon ends_in_head is_head lower at_end assign write_cell
    read_cell after_colon then_head then_number then_end starts_with
incremental_arguments = refl

missing_value :
    parse_arguments ⦃svn = flat_paths⦄ (codes "-v" ∷ codes "--prefix" ∷ []) no_arguments ≡ failed
unfolding with_url parse_arguments parse_last parse_branch branch_of flag_of value_of is go_on
    set_url take_revision set_revisions verbose text_eq parse_revnum two_heads number_head
    two_numbers or_else scan_long scan_signed scan_digits digits is_digit skip_space is_space
    scan_word take_word some_word scan_colon ends_in_head is_head lower at_end assign write_cell
    read_cell after_colon then_head then_number then_end starts_with
missing_value = refl
