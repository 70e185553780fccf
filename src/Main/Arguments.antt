-- ===== src/Main/Arguments.antt =====
-- main() of src/main.c: the loop over the arguments, and the exit status. Messages to the user are
-- left out, and so is the blanking of arguments that nobody reads again.
use rsvndump.Base.{
  Text, text_eq, ℤ, pos, negsuc, incz, lez, Bool, true, false, ◌||◌, if◌then◌else◌, Option, none,
  some, List, [], ◌∷◌, codes, Status, success, failure,
}
use rsvndump.Svn.{SvnCalls}
use rsvndump.Options.{Flags, DumpOptions, dump_options_create}
use rsvndump.Main.Range.{Revisions, start_cell, end_cell, parse_revnum}

-- what the loop changes: of the session, the options, and `loglevel`
pub record Arguments : Type 0 where
  pub url : Option Text
  pub username : Option Text
  pub password : Option Text
  pub config_dir : Option Text
  pub obfuscate : Bool
  pub no_auth_cache : Bool
  pub non_interactive : Bool
  pub opts : DumpOptions
  pub loglevel : ℤ

-- session_create() and dump_options_create()
abbrev pub no_arguments : Arguments
no_arguments = record {
  url = none;
  username = none;
  password = none;
  config_dir = none;
  obfuscate = false;
  no_auth_cache = false;
  non_interactive = false;
  opts = dump_options_create;
  loglevel = pos 0;
}

-- A branch of the loop: `shows` goes to finish, `sets` uses the argument alone, `takes` the next one
-- too, where `none` goes to failure; `skips` passes over the next one.
pub data Branch : Type 0 where
  shows skips unknown : Branch
  sets : (Arguments → Arguments) → Branch
  takes : (Text → Arguments → Option Arguments) → Branch
  names_url : Branch

abbrev pub set_flags : (Flags → Flags) → Branch
set_flags f = sets λ a. record a { opts = record a.opts { flags = f a.opts.flags } }

unfoldable pub verbose : Arguments → Arguments
verbose a = record a { loglevel = incz (if lez (pos 0) a.loglevel then a.loglevel else pos 0) }

-- the revision numbers of the options, where parse_revnum() succeeds
unfoldable pub set_revisions : Arguments → Status × Revisions → Option Arguments
set_revisions a (failure, r) = none
set_revisions a (success, r) =
    some (record a { opts = record a.opts { start = r.start; end = r.end } })

unfoldable pub take_revision : Text → Arguments → Option Arguments
unfolding parse_revnum set_revisions
take_revision arg a =
    set_revisions a
      (parse_revnum arg start_cell end_cell (record { start = a.opts.start; end = a.opts.end }))

-- `--stop`: both pointers are that of the end
unfoldable pub take_stop : Text → Arguments → Option Arguments
unfolding parse_revnum set_revisions
take_stop arg a =
    set_revisions a
      (parse_revnum arg end_cell end_cell (record { start = pos 0; end = a.opts.end }))

unfoldable pub is : Text → Text → Text → Bool
is arg short long = text_eq arg short || text_eq arg long

-- the branches that set a flag, and the rest
unfoldable pub flag_of : Text → Option Branch
flag_of arg =
    if is arg (codes "-q") (codes "--quiet")
    then some (sets λ a. record a { loglevel = negsuc 0 })
    else if is arg (codes "-v") (codes "--verbose")
    then some (sets verbose)
    else if is arg (codes "-n") (codes "--dry-run")
    then some (set_flags λ f. record f { dry_run = true })
    else if text_eq arg (codes "--obfuscate")
    then some (sets λ a. record a { obfuscate = true })
    else if text_eq arg (codes "--no-auth-cache")
    then some (sets λ a. record a { no_auth_cache = true })
    else if text_eq arg (codes "--non-interactive")
    then some (sets λ a. record a { non_interactive = true })
    else if text_eq arg (codes "--keep-revnums")
    then some (set_flags λ f. record f { keep_revnums = true })
    else if text_eq arg (codes "--no-incremental-header")
    then some (set_flags λ f. record f { no_incremental_header = true })
    else if text_eq arg (codes "--deltas")
    then some (set_flags λ f. record f { use_deltas = true })
    else if text_eq arg (codes "--incremental")
    then some (set_flags λ f. record f { incremental = true })
    else none

unfoldable pub value_of : ⦃svn : SvnCalls⦄ → Text → Branch
unfolding is take_revision take_stop
value_of ⦃svn⦄ arg =
    if is arg (codes "-r") (codes "--revision")
    then takes take_revision
    else if is arg (codes "-u") (codes "--username")
    then takes (λ v a. some (record a { username = some v }))
    else if is arg (codes "-p") (codes "--password")
    then takes (λ v a. some (record a { password = some v }))
    else if text_eq arg (codes "--config-dir")
    then takes (λ v a. some (record a { config_dir = some v }))
    else if text_eq arg (codes "--prefix")
    then takes (λ v a. some (record a { opts = record a.opts { prefix = some v } }))
    else if text_eq arg (codes "--stop")
    then takes take_stop
    else if is arg (codes "--online") (codes "--dump-uuid")
    then sets (λ a. a)
    else if is arg (codes "-d") (codes "--download-dir")
    then skips
    else if text_eq arg (codes "--no-check-certificate")
    then sets (λ a. a)
    else if is arg (codes "-o") (codes "--outfile")
    then skips
    else if svn.is_url arg
    then names_url
    else unknown

unfoldable pub branch_of : ⦃svn : SvnCalls⦄ → Text → Branch
unfolding is flag_of value_of
branch_of arg =
    if is arg (codes "-h") (codes "--help") || text_eq arg (codes "--version")
    then shows
    else (elim (flag_of arg) [ some b ↦ b | none ↦ value_of arg ])

-- What the loop leads to.
pub data Outcome : Type 0 where
  finished failed : Outcome
  parsed : Arguments → Outcome

unfoldable pub set_url : Text → Arguments → Option Arguments
set_url arg a = elim a.url [ none ↦ some (record a { url = some arg }) | some u ↦ none ]

unfoldable pub go_on : Option Arguments → (Arguments → Outcome) → Outcome
go_on none next = failed
go_on (some a) next = next a

module _ ⦃svn : SvnCalls⦄ where
  -- the last argument
  unfoldable pub parse_last : Text → Branch → Arguments → Outcome
  unfolding go_on set_url
  parse_last arg shows a = finished
  parse_last arg skips a = parsed a
  parse_last arg unknown a = failed
  parse_last arg (sets f) a = parsed (f a)
  parse_last arg (takes f) a = failed
  parse_last arg names_url a = go_on (set_url arg a) parsed

  -- An argument before the value `v`: `next` goes on with `v`, and `over` after it.
  unfoldable pub parse_branch :
      Text → Text → Branch → (Arguments → Outcome) → (Arguments → Outcome) → Arguments → Outcome
  unfolding go_on set_url
  parse_branch arg v shows next over a = finished
  parse_branch arg v skips next over a = over a
  parse_branch arg v unknown next over a = failed
  parse_branch arg v (sets f) next over a = next (f a)
  parse_branch arg v (takes f) next over a = go_on (f v a) over
  parse_branch arg v names_url next over a = go_on (set_url arg a) next

  unfoldable pub parse_arguments : List Text → Arguments → Outcome
  unfolding parse_last parse_branch branch_of
  parse_arguments [] a = parsed a
  parse_arguments (arg ∷ []) a = parse_last arg (branch_of arg) a
  parse_arguments (arg ∷ v ∷ rest) a =
      parse_branch arg v (branch_of arg) (parse_arguments (v ∷ rest)) (parse_arguments rest) a

  -- "URL given ?"
  unfoldable pub with_url : Outcome → Outcome
  with_url finished = finished
  with_url failed = failed
  with_url (parsed a) = elim a.url [ none ↦ failed | some u ↦ parsed a ]

-- The exit status: whether there is a temporary directory, and what session_open() and then dump()
-- give. Where the session is not opened, `ret` is still 0.
unfoldable pub exit_status : Outcome → Bool → Status → Status → Status
exit_status finished temp opened dumped = success
exit_status failed temp opened dumped = failure
exit_status (parsed a) false opened dumped = failure
exit_status (parsed a) true failure dumped = success
exit_status (parsed a) true success dumped = dumped
