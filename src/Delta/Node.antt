-- ===== src/Delta/Node.antt =====
-- The nodes and the state of the delta editor of src/delta.c. The nodes of a revision stand on an
-- arena: an address is an index, and a pointer to a node is its address.
use rsvndump.Base.{
  ℕ, zero, suc, Text, ℤ, pos, Bool, true, false, Option, none, some, List, [], ◌∷◌, ◌++◌, length,
  set, get_elem?, if◌then◌else◌, Status, success, failure,
}
use rsvndump.Apr.{AprHash}
use rsvndump.Critbit.{Critbit}
use rsvndump.Files.{Files}
use rsvndump.Rhash.{Rhash, rhash_set}
use rsvndump.Ra.{NodeKind}
use rsvndump.Log.{LogRevision}
use rsvndump.Options.{DumpOptions}
use rsvndump.Session.{Obfuscation, Session}
use rsvndump.PathRepo.{PathRepo}
use rsvndump.Property.Store.{PropertyStorage}

-- cp_info_t
pub data CopyInfo : Type 0 where
  cpi_none cpi_copy cpi_failed cpi_failed_outside : CopyInfo

-- `cp_info & CPI_FAILED`, and just so `cp_info & CPI_FAILED_OUTSIDE`: 0x04 and 0x14 share a bit with
-- each other, and with neither of 0x01 and 0x02.
unfoldable pub failed : CopyInfo → Bool
failed cpi_none = false
failed cpi_copy = false
failed cpi_failed = true
failed cpi_failed_outside = true

-- cp_info == CPI_COPY
unfoldable pub copied : CopyInfo → Bool
copied cpi_copy = true
copied cpi_none = false
copied cpi_failed = false
copied cpi_failed_outside = false

abbrev pub is_file : NodeKind → Bool
is_file NodeKind.node_file = true
is_file NodeKind.node_dir = false
is_file NodeKind.node_other = false

abbrev pub is_dir : NodeKind → Bool
is_dir NodeKind.node_file = false
is_dir NodeKind.node_dir = true
is_dir NodeKind.node_other = false

abbrev pub is_some {ℓ} : {A : Type ℓ} → Option A → Bool
is_some none = false
is_some (some a) = true

-- memset(md5sum, 0x00, sizeof(md5sum))
abbrev pub no_sum : Text
no_sum = 0 ∷ 0 ∷ 0 ∷ 0 ∷ 0 ∷ 0 ∷ 0 ∷ 0 ∷ 0 ∷ 0 ∷ 0 ∷ 0 ∷ 0 ∷ 0 ∷ 0 ∷ 0 ∷ []

-- What the memory that apr_palloc() gives happens to hold where nothing sets it.
pub record Garbage : Type 0 where
  pub action : ℕ
  pub kind : NodeKind
  pub revision : ℤ
  pub filename : Text

module _ ⦃apr : AprHash⦄ where
  -- de_node_baton_t; `action` is the character. svn_node_none is `node_other`.
  pub record Node : Type 0 where
    pub path : Text
    pub filename : Option Text
    pub old_filename : Option Text
    pub delta_filename : Option Text
    pub action : ℕ
    pub kind : NodeKind
    pub properties : apr.Hash Text
    pub del_properties : apr.Hash ℕ
    pub md5sum : Text
    pub copyfrom_path : Option Text
    pub copyfrom_revision : ℤ
    pub copyfrom_rev_local : ℤ
    pub cp_info : CopyInfo
    pub applied_delta : Bool
    pub dump_needed : Bool
    pub props_changed : Bool
    pub parent : Option ℕ
    pub children : List ℕ

  -- delta_hash and md5_hash, and whether they are created
  pub record Hashes : Type 0 where
    pub hashes_created : Bool
    pub delta_hash : Rhash Text
    pub md5_hash : Rhash Text

  -- delta_create_node_no_parent(), as far as the node goes
  unfoldable pub node_no_parent : Garbage → Text → Node
  node_no_parent junk path = record {
    path = path;
    filename = none;
    old_filename = none;
    delta_filename = none;
    action = junk.action;
    kind = junk.kind;
    properties = apr.make;
    del_properties = apr.make;
    md5sum = no_sum;
    copyfrom_path = none;
    copyfrom_revision = junk.revision;
    copyfrom_rev_local = junk.revision;
    cp_info = cpi_none;
    applied_delta = false;
    dump_needed = false;
    props_changed = false;
    parent = none;
    children = [];
  }

  -- delta_create_node(), as far as the new node goes; the parent is at address `a`
  unfoldable pub node_below : Garbage → Text → ℕ → Node → Node
  unfolding node_no_parent
  node_below junk path a parent = record (node_no_parent junk path) {
    copyfrom_revision = pos 0;
    cp_info = parent.cp_info;
    parent = some a;
  }

module _ ⦃apr : AprHash⦄ ⦃cb : Critbit⦄ ⦃obf : Obfuscation⦄ ⦃files : Files⦄ where
  -- de_baton_t with the two hashes, the file system and what has been printed
  pub record Editor : Type 0 where
    pub session : Session
    pub opts : DumpOptions
    pub logs : List LogRevision
    pub log_revision : LogRevision
    pub dumped_entries : apr.Hash ℕ
    pub local_revnum : ℤ
    pub root_node : Option ℕ
    pub path_repo : PathRepo
    pub prop_store : PropertyStorage
    pub hashes : Hashes
    pub nodes : List Node
    pub fs : files.Fs
    pub out : Text

  abbrev pub node_at : Editor → ℕ → Option Node
  node_at ed a = get_elem? ed.nodes a

  abbrev pub put_node : Editor → ℕ → Node → Editor
  put_node ed a n = record ed { nodes = set ed.nodes a n }

  abbrev pub print : Editor → Text → Editor
  print ed text = record ed { out = ed.out ++ text }

  -- A step that can fail, and what follows it where it does not.
  unfoldable pub after :
      Status × Node × Editor → (Editor → Node → Status × Node × Editor) → Status × Node × Editor
  after x f = elim x.0 [ failure ↦ x | success ↦ f x.2 x.1 ]

  -- The address of the new node comes first.
  unfoldable pub delta_create_node_no_parent : Garbage → Text → Editor → ℕ × Editor
  unfolding node_no_parent
  delta_create_node_no_parent junk path ed =
      (length ed.nodes, record ed { nodes = ed.nodes ++ node_no_parent junk path ∷ [] })

  -- "Register node in parent list"
  unfoldable pub delta_create_node : Garbage → Text → ℕ → Node → Editor → ℕ × Editor
  unfolding node_below
  delta_create_node junk path a parent ed =
      let c = length ed.nodes in
      let registered = set ed.nodes a (record parent { children = parent.children ++ c ∷ [] }) in
      (c, record ed { nodes = registered ++ node_below junk path a parent ∷ [] })

  -- the nodes above a node, the nearest first; no more than there are nodes
  pub ancestors : ℕ → List Node → Option ℕ → List Node
  ancestors zero nodes parent = []
  ancestors (suc fuel) nodes none = []
  ancestors (suc fuel) nodes (some a) = elim (get_elem? nodes a) [
    | none ↦ []
    | some n ↦ n ∷ ancestors fuel nodes n.parent
  ]

  abbrev pub parents : Editor → Node → List Node
  parents ed n = ancestors (length ed.nodes) ed.nodes n.parent

  -- delta_mark_node() on the node at address `a`
  unfoldable pub delta_mark_node : ℕ → Node → Editor → Node × Editor
  delta_mark_node a n ed =
      let dumped = apr.put ed.dumped_entries n.path (some a) in
      let sums =
        if is_file n.kind
        then rhash_set ed.hashes.md5_hash n.path (some n.md5sum)
        else ed.hashes.md5_hash in
      (
        record n { dump_needed = false },
        record ed { dumped_entries = dumped; hashes = record ed.hashes { md5_hash = sums } },
      )
