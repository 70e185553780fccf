-- ===== src/Tests/Dumps.antt =====
-- Properties, records of the dump file and log entries, on small inputs.
use rsvndump.Base.{
  text_eq, ℕ, ◌<◌, Text, pos, ◌≡◌, refl, true, false, ltb, if◌then◌else◌, none, some, List, [], ◌∷◌,
  ◌++◌, codes, length, arith, All, success, ◌>>=◌,
}
use rsvndump.Samples.{first_ones, list_hash, byte_strings, list_tree, copying, new_file}
use rsvndump.Tests.Store.{store_on, store_on-IsValid}
use rsvndump.Options.{DumpOptions, dump_options_create}
use rsvndump.Svn.{DumpNames}
use rsvndump.Log.{ChangedPath, LogRevision}
use rsvndump.Session.{Obfuscation, Session}
use rsvndump.Log.Receiver.{log_receiver}
use rsvndump.Log.Fetch.{Received, LogServer, log_fetch_all}
use rsvndump.Log.Fetch.Listed.{log_revisions, received_revisions, log_revisions-log_fetch_all}
use rsvndump.Log.Receiver.Local.{
  IsAbsolute, logged, kept_entry, repository_path, log_receiver-logged,
}
use rsvndump.Property.Format.{
  line, property_strlen, property_del_strlen, property_dump, property_del_dump,
}
use rsvndump.Property.Format.Reading.{
  read_property, value_or_empty, read_property-property_dump, property_strlen-property_dump,
}
use rsvndump.Property.Serial.{
  put_entries, put_counted, entries_len, put_int, fits, prop_hash_serialize, prop_hash_reconstruct,
}
use rsvndump.Property.Serial.RoundTrip.{IsProperty, prop_hash_reconstruct-prop_hash_serialize}
use rsvndump.Property.Store.{Md5, PropertyStorage, property_store, property_load, property_delete}
use rsvndump.Property.Store.Delete.{property_load-property_delete}
use rsvndump.Property.Store.Load.{property_load-property_store}
use rsvndump.Dump.Records.{
  header_lines, dump_revision_header, dump_padding_revision, padding_message,
  dump_create_user_prefix,
}
use rsvndump.Dump.Records.Announced.{
  read_block, present, dump_revision_header-present, dump_padding_revision-dump_revision_header,
}
use rsvndump.Dump.Records.UserPrefix.{squeeze, parents, nodes, dump_create_user_prefix-squeeze}

instance abbrev pub names : DumpNames
names = record {
  magic_header = codes "SVN-fs-dump-format-version";
  revision_number = codes "Revision-number";
  prop_content_length = codes "Prop-content-length";
  content_length = codes "Content-length";
  node_path = codes "Node-path";
  node_kind = codes "Node-kind";
  node_action = codes "Node-action";
  node_copyfrom_rev = codes "Node-copyfrom-rev";
  node_copyfrom_path = codes "Node-copyfrom-path";
  prop_delta = codes "Prop-delta";
  text_delta = codes "Text-delta";
  text_content_length = codes "Text-content-length";
  text_content_md5 = codes "Text-content-md5";
}

-- A checksum that is the data itself.
instance abbrev pub whole : Md5
whole = record { md5 = λ d. some d }

-- Names that stay as they are.
instance abbrev pub unnamed : Obfuscation
unnamed = record { Names = ℕ; rename = λ n t. (t, n); invent = λ n. ([], n) }

abbrev pub one_log : LogRevision
one_log = record {
  revision = pos 7;
  author = some (codes "ann");
  date = none;
  message = some (codes "fix");
  changed_paths = none;
}

abbrev with_prefix : DumpOptions
with_prefix = record dump_options_create { prefix = some (codes "/a//b") }

abbrev one_property : List (Text × Text)
one_property = (codes "k", codes "v") ∷ []

one_property-IsProperty : All IsProperty (list_hash.entries one_property)
unfolding first_ones
one_property-IsProperty = omega arith

abbrev pub empty_storage : PropertyStorage
empty_storage = record { refs = []; entries = []; db = store_on new_file; gc = []; heap = [] }

abbrev one_change : List (Text × ChangedPath)
one_change =
    (
      codes "/trunk/a",
      record { action = b'A'; copyfrom_path = some (codes "/trunk/b"); copyfrom_rev = pos 3 },
    )
    ∷ []

one_change-IsAbsolute : All (λ e. IsAbsolute e.0) (list_hash.entries one_change)
unfolding first_ones
one_change-IsAbsolute = (refl, tt)

one_property_some : 0 < length (list_hash.entries one_property)
unfolding first_ones
one_property_some = omega arith

-- The property in its packed form.
abbrev packed_one : Text
packed_one = 1 ∷ 0 ∷ 0 ∷ 0 ∷ b'k' ∷ 1 ∷ 0 ∷ 0 ∷ 0 ∷ b'v' ∷ 0 ∷ 0 ∷ 0 ∷ 0 ∷ []

one_property-packed : prop_hash_serialize one_property ≡ some (packed_one, length packed_one)
unfolding prop_hash_serialize put_entries put_counted entries_len put_int fits first_ones
one_property-packed = refl

abbrev on_trunk : Session
on_trunk = record { prefix = codes "trunk"; obfuscate = false; names = 0 }

read_property-property_dump_example :
    read_property (property_dump (some (codes "svn:log")) (some (codes "hi")) ++ codes "rest")
    ≡ some (codes "svn:log", value_or_empty (some (codes "hi")), codes "rest")
read_property-property_dump_example =
    read_property-property_dump (codes "svn:log") (some (codes "hi")) (codes "rest")

property_strlen-property_dump_example :
    (property_strlen (some (codes "k")) none ≡ length (property_dump (some (codes "k")) none))
    × (property_del_strlen (some (codes "k")) ≡ length (property_del_dump (some (codes "k"))))
property_strlen-property_dump_example = property_strlen-property_dump (some (codes "k")) none

prop_hash_reconstruct-prop_hash_serialize_example :
    (d : Text) × (h : List (Text × Text)) × (prop_hash_serialize one_property ≡ some (d, length d))
    × (prop_hash_reconstruct [] d ≡ some h)
    × ((k : Text) → list_hash.get h k ≡ list_hash.get one_property k)
prop_hash_reconstruct-prop_hash_serialize_example =
    prop_hash_reconstruct-prop_hash_serialize one_property one_property-IsProperty

dump_revision_header-present_example :
    (b : Text) × (dump_revision_header one_log (pos 3)
      ≡ header_lines (pos 3) (length b) ++ (if ltb 0 (length b) then line b else []))
    × (read_block b ≡ some (present one_log))
dump_revision_header-present_example = dump_revision_header-present one_log (pos 3)

dump_padding_revision-dump_revision_header_example :
    dump_padding_revision (pos 3)
    ≡ dump_revision_header
        (record one_log { message = some padding_message; author = none; date = none })
        (pos 3)
dump_padding_revision-dump_revision_header_example =
    dump_padding_revision-dump_revision_header one_log (pos 3)

dump_create_user_prefix-squeeze_example : dump_create_user_prefix with_prefix ≡ (
  nodes (parents [] (squeeze true (codes "/a//b"))),
  record with_prefix { prefix = some (squeeze true (codes "/a//b")) },
)
dump_create_user_prefix-squeeze_example =
    dump_create_user_prefix-squeeze with_prefix (codes "/a//b") refl

log_receiver-logged_example :
    (logged (log_receiver on_trunk (some one_change) (pos 4) none none none).0 (codes "a") ≡ (
      list_hash.get one_change (repository_path (codes "trunk") (codes "a")) >>= λ v.
      some (kept_entry v)))
    × ((log_receiver on_trunk (some one_change) (pos 4) none none none).0.revision ≡ pos 4)
    × ((log_receiver on_trunk (some one_change) (pos 4) none none none).0.author ≡ none)
    × ((log_receiver on_trunk (some one_change) (pos 4) none none none).0.date ≡ none)
    × ((log_receiver on_trunk (some one_change) (pos 4) none none none).0.message ≡ none)
log_receiver-logged_example =
    log_receiver-logged on_trunk one_change (pos 4) none none none (codes "a") refl
      one_change-IsAbsolute (omega arith)

property_load-property_store_example :
    ((property_store empty_storage (codes "a") one_property).0 ≡ success)
    × ((property_load (property_store empty_storage (codes "a") one_property).1 (codes "a") []).0
        ≡ success)
    × ((k : Text)
        → list_hash.get
            (property_load
              (property_store empty_storage (codes "a") one_property).1
              (codes "a")
              []).1
            k
          ≡ list_hash.get one_property k)
property_load-property_store_example =
    property_load-property_store empty_storage (codes "a") one_property packed_one packed_one
      packed_one (store_on-IsValid new_file refl) (λ id a e. absurd (ground arith))
      one_property-IsProperty one_property_some one_property-packed refl refl (omega arith)

abbrev two_received : List Received
two_received =
    record {
      changed_paths = some one_change;
      revision = pos 3;
      author = none;
      date = none;
      message = none;
    }
    ∷ record { changed_paths = none; revision = pos 4; author = none; date = none; message = none }
    ∷ []

instance abbrev two_logs : LogServer
two_logs = record { get_log = λ start end limit. some two_received }

log_revisions-log_fetch_all_example :
    ((log_fetch_all on_trunk (pos 0) (pos 9) (one_log ∷ [])).0 ≡ success)
    × (log_revisions (log_fetch_all on_trunk (pos 0) (pos 9) (one_log ∷ [])).1
        ≡ log_revisions (one_log ∷ []) ++ received_revisions two_received)
log_revisions-log_fetch_all_example =
    log_revisions-log_fetch_all on_trunk (pos 0) (pos 9) (one_log ∷ []) two_received refl

abbrev saved : PropertyStorage
saved = (property_store empty_storage (codes "a") one_property).1

property_load-property_delete_example :
    (property_load (property_delete saved (codes "a")).1 (codes "a") one_property
      ≡ (success, one_property, (property_delete saved (codes "a")).1))
    × (list_hash.get (property_delete saved (codes "a")).1.entries (codes "b") ≡ (
        if text_eq (codes "a") (codes "b") then none else list_hash.get saved.entries (codes "b")))
property_load-property_delete_example =
    property_load-property_delete saved (codes "a") (codes "b") one_property
