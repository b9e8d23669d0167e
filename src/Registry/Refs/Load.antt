-- ===== src/Registry/Refs/Load.antt =====
-- skyobject/registry/refs_node.go and refs.go: the loading of nodes, and `initialize`.
use cxo.Prelude.{
  ℕ, zero, suc, true, false, List, [], ◌∷◌, Option, none, some, Error, Result, ok, err, panic,
  if◌then◌else◌, ◌||◌, ◌==◌, ltb, ◌>>=◌,
}
use cxo.Cipher.{Cipher}
use cxo.Data.{is_blank_hash}
use cxo.IdxDb.{is_there}
use cxo.Registry.Refs.{
  EncodedNode, EncodedRefs, RefsCodec, Flags, Pack, Child, RefsNode, Loaded, Refs,
}

-- `MaxDegree`, and `Degree.Validate`
abbrev pub max_degree : ℕ
max_degree = 1024

abbrev pub validate_degree : ℕ → Option Error
validate_degree d = if ltb d 2 || ltb max_degree d then some Error.invalid_degree else none

-- A loop that loads each branch.
unfoldable pub load_all {ℓ} : {A B : Type ℓ} → (A → Result B) → List A → Result (List B)
load_all load [] = ok []
load_all load (a ∷ l) = do b ← load a; bs ← load_all load l; ok (b ∷ bs)

module _ {c : Cipher} (codec : RefsCodec c) (p : Pack c) where
  -- `get`, of a node and of a Refs
  unfoldable pub get_node : c.Sha256 → p.Store → Result (EncodedNode c)
  get_node hash st = do val ← p.get hash st; codec.decode_node val

  unfoldable pub get_refs : c.Sha256 → p.Store → Result (EncodedRefs c)
  get_refs hash st = do val ← p.get hash st; codec.decode_refs val

  -- A node of which only the hash is known.
  abbrev pub new_branch : (d : ℕ) → c.Sha256 → RefsNode c d
  new_branch d hash = record {
    hash = hash;
    length = 0;
    loaded = false;
    changed = false;
    elements = [];
  }

  -- `loadBranch`, over `loadNode`
  abbrev pub load_branch :
      (d : ℕ) → (RefsNode c d → Result (RefsNode c d)) → Flags → c.Sha256 → Result (RefsNode c d)
  load_branch d load flags hash =
      if is_blank_hash c hash
      then err Error.invalid_refs
      else if flags.hash_table || flags.entire
      then load (new_branch d hash)
      else ok (new_branch d hash)

  -- `loadNode`, over `loadSubtree`
  abbrev pub load_node_by :
      (d : ℕ)
      → (List c.Sha256 → Result (List (Child c d)))
      → p.Store
      → RefsNode c d
      → Result (RefsNode c d)
  load_node_by d load st rn = do
    ern ← get_node rn.hash st
    es ← load ern.elements
    ok (record rn { length = ern.length; loaded = true; elements = es })

  -- `loadSubtree`, which is `loadLeafs` or `loadBranches`
  unfoldable pub load_subtree :
      (d : ℕ) → Flags → p.Store → List c.Sha256 → Result (List (Child c d))
  unfolding load_all get_node
  load_subtree zero flags st es = ok es
  load_subtree (suc d) flags st es =
      load_all (load_branch d (load_node_by d (load_subtree d flags st) st) flags) es

  unfoldable pub load_node : (d : ℕ) → Flags → p.Store → RefsNode c d → Result (RefsNode c d)
  unfolding load_subtree
  load_node d flags st rn = load_node_by d (load_subtree d flags st) st rn

  -- `loadNodeIfNeed`
  unfoldable pub load_node_if_need :
      (d : ℕ) → Flags → p.Store → RefsNode c d → Result (RefsNode c d)
  unfolding load_node
  load_node_if_need d flags st rn = if rn.loaded then ok rn else load_node d flags st rn

  -- The node of a blank Refs.
  abbrev pub blank_node : (d : ℕ) → RefsNode c d
  blank_node d = record {
    hash = c.blank_hash;
    length = 0;
    loaded = true;
    changed = false;
    elements = [];
  }

  abbrev pub check_refs : EncodedRefs c → Result (Unit {0})
  check_refs er =
      if er.length == 0 || is_there (validate_degree er.degree)
      then err Error.invalid_encoded_refs
      else ok tt

  -- What `initialize` makes of a Refs that was saved.
  unfoldable pub load_refs : p.Store → c.Sha256 → Result (Refs c)
  unfolding get_refs load_subtree
  load_refs st hash = do
    er ← get_refs hash st
    _ ← check_refs er
    es ← load_subtree er.depth p.flags st er.elements
    ok (record {
      hash = hash;
      body = some (record {
        depth = er.depth;
        degree = er.degree;
        flags = p.flags;
        node = record (blank_node er.depth) { length = er.length; elements = es };
      });
    })

  -- `initialize`
  unfoldable pub initialize : p.Store → Refs c → Result (Refs c)
  unfolding load_refs
  initialize st r = elim r.body [
    | some b ↦ ok r
    | none ↦ elim (validate_degree p.degree) [
      | some e ↦ panic
      | none ↦
          if is_blank_hash c r.hash
          then ok (record r {
            body =
                some
                  (record { depth = 0; degree = p.degree; flags = p.flags; node = blank_node 0 });
          })
          else load_refs st r.hash
    ]
  ]

-- The flags that a Refs has once it is initialized.
abbrev pub flags_of : {c : Cipher} → Pack c → Option (Loaded c) → Flags
flags_of p none = p.flags
flags_of p (some b) = b.flags
