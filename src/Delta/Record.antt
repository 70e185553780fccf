-- ===== src/Delta/Record.antt =====
-- delta_deltify_node(), delta_cat_file(), delta_dump_replace() and delta_dump_node() of src/delta.c:
-- a node is dumped. What goes to standard output is at the end of the editor's `out`.
pub mod Calls
pub mod Checked
pub mod Kept
pub mod Blocks
pub mod Announced
use rsvndump.Base.{
  ℕ, zero, suc, ◌+◌, Text, text_eq, Bool, true, false, not, ◌&&◌, ◌||◌, ltb, ◌==◌, if◌then◌else◌,
  Option, none, some, [], ◌++◌, codes, ◌>>=◌, Status, success, failure,
}
use rsvndump.Apr.{AprHash, AprStrings}
use rsvndump.Critbit.{Critbit}
use rsvndump.Snappy.{Snappy}
use rsvndump.Svn.{DumpNames, SvnCalls}
use rsvndump.Files.{Files}
use rsvndump.Utils.{utils_mkstemp}
use rsvndump.Rhash.{rhash_get}
use rsvndump.Session.{Obfuscation}
use rsvndump.Options.{DumpOptions}
use rsvndump.Dump.Records.{props_end_len}
use rsvndump.Delta.CopyFrom.{delta_get_local_copyfrom_path}
use rsvndump.Delta.Node.{
  Node, Editor, print, after, delta_mark_node, cpi_none, copied, is_file, is_dir,
}
use rsvndump.Delta.Copies.{delta_check_copy, delta_check_action}
use rsvndump.Delta.Print.{
  node_props_len, skips, delete_record, node_fields, copy_fields, props_fields, section_text,
}

module _ ⦃apr : AprHash⦄ ⦃cb : Critbit⦄ ⦃obf : Obfuscation⦄ ⦃files : Files⦄ where
  -- A file that is opened and read. A NULL for its name counts as an error.
  unfoldable pub read_file : files.Fs → Option Text → Option Text
  read_file fs none = none
  read_file fs (some name) = files.read fs name

  unfoldable pub file_size : files.Fs → Option Text → Option ℕ
  file_size fs none = none
  file_size fs (some name) = files.size fs name

  -- the source of a delta: the old file, or an empty stream
  unfoldable pub read_old : files.Fs → Option Text → Option Text
  read_old fs none = some []
  read_old fs (some name) = files.read fs name

  unfoldable pub remove_file : files.Fs → Option Text → files.Fs
  remove_file fs none = fs
  remove_file fs (some name) = files.remove fs name

  -- a temporary file in a directory below `temp_dir`
  unfoldable pub make_temp : ⦃svn : SvnCalls⦄ → Editor → Text → Option (Text × files.Fs)
  make_temp ed sub = ed.opts.temp_dir >>= λ dir. utils_mkstemp ed.fs (dir ++ sub)

  unfoldable pub delta_deltify_node : ⦃svn : SvnCalls⦄ → Editor → Node → Status × Node × Editor
  unfolding read_file read_old make_temp
  delta_deltify_node ed n =
      let streams : Option (Text × Text) = read_file ed.fs n.filename >>= λ target.
      read_old ed.fs n.old_filename >>= λ source. some (source, target) in
      elim streams [
        | none ↦ (failure, n, ed)
        | some (source, target) ↦ elim (make_temp ed (codes "/df/XXXXXX")) [
          | none ↦ (failure, n, ed)
          | some (name, fs) ↦
              let n' = record n { delta_filename = some name } in
              elim (files.deltify source target) [
                | none ↦ (failure, n', record ed { fs = fs })
                | some delta ↦ (success, n', record ed { fs = files.write fs name delta })
              ]
        ]
      ]

  unfoldable pub delta_cat_file : Editor → Option Text → Status × Editor
  unfolding read_file
  delta_cat_file ed path = elim (read_file ed.fs path) [
    | none ↦ (failure, ed)
    | some data_read ↦ (success, print ed data_read)
  ]

  -- what is printed as the contents
  unfoldable pub content_file : DumpOptions → Node → Option Text
  content_file opts n = if opts.flags.use_deltas then n.delta_filename else n.filename

  -- `finish:`
  unfoldable pub finish_node : ℕ → Editor → Node → Status × Node × Editor
  unfolding remove_file
  finish_node a ed n =
      let (n', ed') = delta_mark_node a n (print ed (codes "\n\n")) in
      (success, n', record ed' { fs = remove_file ed'.fs n'.old_filename })

  -- whether the source of the copy is known to have the sum of the node
  unfoldable pub same_sum : Editor → Node → Text → Bool
  same_sum ed n path = elim (rhash_get ed.hashes.md5_hash path) [
    | none ↦ false
    | some sum ↦ text_eq n.md5sum sum
  ]

  -- dump_content, after the copy information is printed
  unfoldable pub copy_content : Editor → Node → Text → Bool → Bool
  unfolding same_sum
  copy_content ed n path content =
      if (n.action == b'A') && is_file n.kind then not (same_sum ed n path) else content

module _ ⦃names : DumpNames⦄ ⦃apr : AprHash⦄ ⦃strings : AprStrings⦄ ⦃cb : Critbit⦄ ⦃sn : Snappy⦄
    ⦃obf : Obfuscation⦄ ⦃files : Files⦄ ⦃svn : SvnCalls⦄ where
  -- The contents are printed, and a delta file is removed.
  unfoldable pub dump_contents : Editor → Node → Status × Editor
  unfolding delta_cat_file content_file remove_file
  dump_contents ed n =
      let (s, ed') = delta_cat_file ed (content_file ed.opts n) in
      elim s [
        | failure ↦ (failure, ed')
        | success ↦ (
          success,
          if ed.opts.flags.use_deltas
              then record ed' { fs = remove_file ed'.fs n.delta_filename }
              else ed',
        )
      ]

  -- from "Dump property size" to "Dump content"
  unfoldable pub dump_sections : Editor → Node → Bool → Bool → Status × Editor
  unfolding dump_contents section_text props_fields node_props_len content_file file_size
  dump_sections ed n content dump_props =
      let len = node_props_len ed.opts n in
      let props = dump_props || ltb 0 len in
      let ed1 = print ed (if props then props_fields ed.opts (len + props_end_len) else []) in
      elim content [
        | false ↦ (success, print ed1 (section_text ed.opts n props none))
        | true ↦ elim (file_size ed.fs (content_file ed.opts n)) [
          | none ↦ (failure, ed1)
          | some size ↦ dump_contents (print ed1 (section_text ed.opts n props (some size))) n
        ]
      ]

  -- The rest, from the dumping of sections on.
  unfoldable pub dump_and_finish : ℕ → Bool → Bool → Editor → Node → Status × Node × Editor
  unfolding dump_sections finish_node after
  dump_and_finish a content props ed n =
      let (s, ed') = dump_sections ed n content props in after (s, n, ed') (finish_node a)

  -- from "Deltify?" on
  unfoldable pub dump_rest : ℕ → Bool → Bool → Editor → Node → Status × Node × Editor
  unfolding dump_and_finish delta_deltify_node
  dump_rest a content props ed n =
      if content && ed.opts.flags.use_deltas
      then after (delta_deltify_node ed n) (dump_and_finish a content props)
      else dump_and_finish a content props ed n

  -- "Output copy information if neccessary"; `path` is the local source
  unfoldable pub dump_copied : ℕ → Editor → Node → Bool → Bool → Text → Status × Node × Editor
  unfolding dump_rest copy_content copy_fields
  dump_copied a ed n content props path =
      let ed' = print ed (copy_fields ed.opts n path) in
      let content' = copy_content ed n path content in
      if not content' && not n.props_changed
      then finish_node a ed' n
      else dump_rest a (content' && not (is_dir n.kind)) props ed' n

  unfoldable pub dump_local : ℕ → Editor → Node → Bool → Bool → Option Text → Status × Node × Editor
  unfolding dump_copied
  dump_local a ed n content props none = (failure, n, ed)
  dump_local a ed n content props (some path) = dump_copied a ed n content props path

  -- the source of a node that is dumped as a copy
  unfoldable pub copy_source : Node → Option Text
  unfolding copied
  copy_source n = if copied n.cp_info then n.copyfrom_path else none

  -- the two cases of a copy with its local source, and of no copy
  unfoldable pub dump_from : ℕ → Editor → Node → Bool → Bool → Option Text → Status × Node × Editor
  unfolding dump_local dump_rest
  dump_from a ed n content props none = dump_rest a content props ed n
  dump_from a ed n content props (some from) =
      dump_local a ed n content props (delta_get_local_copyfrom_path ed.session.prefix from)

  -- delta_dump_node() from "Dump node path" on
  unfoldable pub dump_record : ℕ → Editor → Node → Status × Node × Editor
  unfolding dump_from copy_source node_fields
  dump_record a ed n =
      let ed' = print ed (node_fields ed.opts n) in
      if n.action == b'D'
      then finish_node a ed' n
      else dump_from a ed' n (is_file n.kind && n.applied_delta)
          (n.props_changed || n.action == b'A') (copy_source n)

  -- what delta_dump_replace() does before it calls delta_dump_node() again
  unfoldable pub replaced : Node → Node
  replaced n = record n { cp_info = cpi_none; action = b'A' }

  -- The rest of a call of delta_dump_node() after the checks; `again` is delta_dump_node(), which
  -- delta_dump_replace() calls.
  unfoldable pub dump_checked :
      (Editor → Node → Status × Node × Editor) → ℕ → Status → Node → Editor → Status × Node × Editor
  unfolding dump_record delete_record replaced
  dump_checked again a failure n ed = (failure, n, ed)
  dump_checked again a success n ed =
      if n.action == b'R'
      then again (print ed (delete_record ed.opts n)) (replaced n)
      else dump_record a ed n

  -- a call of delta_dump_node() on the node at address `a`
  unfoldable pub dump_call :
      (Editor → Node → Status × Node × Editor) → ℕ → Editor → Node → Status × Node × Editor
  unfolding skips dump_checked
  dump_call again a ed n =
      let (s, n', ed') = delta_check_action ed (delta_check_copy ed n) in
      if skips ed.opts n
      then (success, record n { dump_needed = false }, ed)
      else dump_checked again a s n' ed'

  -- The fuel bounds the calls of delta_dump_node() within each other.
  unfoldable pub dump_calls : ℕ → ℕ → Editor → Node → Status × Node × Editor
  unfolding dump_call
  dump_calls zero a ed n = (failure, n, ed)
  dump_calls (suc fuel) a ed n = dump_call (dump_calls fuel a) a ed n

  -- A replacement is dumped by a second call, and there is no third.
  unfoldable pub delta_dump_node : ℕ → Editor → Node → Status × Node × Editor
  unfolding dump_calls
  delta_dump_node a ed n = dump_calls 2 a ed n
