-- ===== src/Tests/Nodes.antt =====
-- The nodes of the delta editor.
use rsvndump.Base.{
  text_eq, starts_with, text_eq, pos, ◌≡◌, ◌↔◌, refl, true, false, some, [], ◌∷◌, ◌++◌, codes,
  arith, success,
}
use rsvndump.Samples.{
  list_hash, byte_strings, list_tree, copying, list_files, flat_paths, file_size_of,
}
use rsvndump.Ra.{node_file, node_other}
use rsvndump.Options.{dump_options_create}
use rsvndump.Session.{Session}
use rsvndump.PathRepo.History.{IsHistory}
use rsvndump.Delta.CopyFrom.{delta_get_local_copyfrom_path, delta_get_local_copyfrom_rev}
use rsvndump.Delta.Node.{Garbage, Node, Editor, copied, cpi_copy, node_no_parent, parents}
use rsvndump.Delta.Copies.{delta_propagate_copy, find_source, relative_path}
use rsvndump.Delta.Copies.Levels.{LevelsIn, delta_propagate_copy-LevelsIn}
use rsvndump.Delta.Record.{
  dump_calls, delta_dump_node, dump_sections, file_size, content_file, dump_contents,
  delta_cat_file, read_file,
}
use rsvndump.Delta.Record.Calls.{dump_calls-delta_dump_node}
use rsvndump.Delta.Record.Announced.{Announced, dump_sections-Announced}
use rsvndump.Delta.Callbacks.{de_open_root}
use rsvndump.Delta.Callbacks.Reached.{Reached, set_up, root, delta_dump_node_recursive-Dumps}
use rsvndump.Delta.Close.Fuel.{Dumps, whole_node}
use rsvndump.Delta.Close.{EditorInfo, delta_setup_editor, delta_dump_node_recursive}
use rsvndump.Tests.Paths.{nothing, fresh_repo, fresh_repo-IsHistory}
use rsvndump.Tests.Dumps.{names, whole, unnamed, empty_storage}
use rsvndump.Tests.Copies.{log_of}

abbrev junk : Garbage
junk = record { action = 0; kind = node_other; revision = pos 0; filename = [] }

abbrev pub whole_session : Session
whole_session = record { prefix = []; obfuscate = false; names = 0 }

abbrev info : EditorInfo
info = record {
  session = whole_session;
  options = dump_options_create;
  path_repo = fresh_repo 99;
  property_storage = empty_storage;
  logs = log_of 0 ∷ log_of 1 ∷ [];
}

abbrev started : Editor
started =
    delta_setup_editor info (log_of 1) (pos 1)
      (record { hashes_created = false; delta_hash = []; md5_hash = [] })
      ((codes "f", codes "hello") ∷ [])

-- A file that is replaced, with a property that has a NUL in it.
abbrev replaced_file : Node
replaced_file = record (node_no_parent junk (codes "a")) {
  action = b'R';
  kind = node_file;
  filename = some (codes "f");
  properties = (codes "k", b'v' ∷ 0 ∷ b'w' ∷ []) ∷ [];
  dump_needed = true;
  applied_delta = true;
}

dump_calls-delta_dump_node_example :
    dump_calls 5 0 started replaced_file ≡ delta_dump_node 0 started replaced_file
dump_calls-delta_dump_node_example = dump_calls-delta_dump_node 3 0 started replaced_file

two_nodes : Reached (de_open_root junk started).1
two_nodes = root junk started (set_up info (log_of 1) (pos 1) _ _)

delta_dump_node_recursive-Dumps_example :
    Dumps
      (whole_node 0)
      (de_open_root junk started).1
      (delta_dump_node_recursive 0 (de_open_root junk started).1)
delta_dump_node_recursive-Dumps_example =
    delta_dump_node_recursive-Dumps 0 (de_open_root junk started).1 two_nodes

sections_succeed : (dump_sections started replaced_file true true).0 ≡ success
unfolding dump_sections file_size content_file delta_setup_editor dump_contents delta_cat_file
    read_file file_size_of text_eq
sections_succeed = refl

dump_sections-Announced_example : Announced started replaced_file true true
dump_sections-Announced_example =
    dump_sections-Announced started replaced_file true true sections_succeed

-- A directory that is a copy of "b" in revision 0, and a file in it.
abbrev copied_dir : Node
copied_dir = record (node_no_parent junk (codes "c")) {
  cp_info = cpi_copy;
  copyfrom_path = some (codes "b");
}

is_copy : copied copied_dir.cp_info ≡ true
unfolding copied
is_copy = refl

abbrev file_in_it : Node
file_in_it = node_no_parent junk (codes "c/x")

lies_below_it : starts_with copied_dir.path file_in_it.path ≡ true
unfolding starts_with node_no_parent
lies_below_it = refl

its_source : find_source (copied_dir ∷ parents started copied_dir) ≡ some (copied_dir, codes "b")
unfolding find_source
its_source = refl

local_source : delta_get_local_copyfrom_path started.session.prefix (codes "b") ≡ some (codes "b")
unfolding delta_get_local_copyfrom_path delta_setup_editor starts_with
local_source = refl

source_revision :
    delta_get_local_copyfrom_rev copied_dir.copyfrom_revision started.opts started.logs ≡ pos 0
unfolding delta_get_local_copyfrom_rev delta_setup_editor node_no_parent
source_revision = refl

started-IsHistory : IsHistory started.path_repo nothing 1
unfolding delta_setup_editor
started-IsHistory = fresh_repo-IsHistory 99

delta_propagate_copy-LevelsIn_example :
    ((delta_propagate_copy started copied_dir file_in_it).0 ≡ success)
    × ((copied (delta_propagate_copy started copied_dir file_in_it).1.cp_info ≡ true)
        ↔ LevelsIn
            (nothing 0)
            []
            (codes "b" ++ (b'/' ∷ relative_path file_in_it.path copied_dir.path)))
    × IsHistory (delta_propagate_copy started copied_dir file_in_it).2.path_repo nothing 1
delta_propagate_copy-LevelsIn_example =
    delta_propagate_copy-LevelsIn started copied_dir file_in_it copied_dir (codes "b") (codes "b")
      nothing 1 0 is_copy lies_below_it its_source local_source source_revision started-IsHistory
      (omega arith)
