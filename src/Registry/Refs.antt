-- ===== src/Registry/Refs.antt =====
-- skyobject/registry/refs.go and refs_node.go: the state. A Refs is a Merkle tree of hashes with the
-- elements in its leafs; branches are loaded when they are needed. The type of a node has its depth,
-- which Go passes beside it: a node of depth 0 has leafs and every other has branches. An element is
-- known by its place, so it is its hash, and the pointers up are the path of a recursion from the
-- root. After an error the Refs cannot be used until it is reset, so there is no state beside one.
pub mod Load
pub mod Holds
pub mod Loads
pub mod Find
pub mod Visits
pub mod Finds
pub mod Change
pub mod Kept
pub mod CxdsPack
pub mod Updates
pub mod Whole
pub mod Sets
pub mod Delete
pub mod Deletes
pub mod Depth
pub mod Ascend
pub mod Each
pub mod Ascends
pub mod Iterates
pub mod Edits
use cxo.Prelude.{is_empty, false, ℕ, zero, suc, Bool, List, Option, Error, Result, ok, ◌≡◌, ◌<◌}
use cxo.Cipher.{Cipher}
use cxo.Cxds.{Val, u32}

-- `encodedRefsNode` and `encodedRefs`
pub record EncodedNode (c : Cipher) : Type 0 where
  pub length : ℕ
  pub elements : List c.Sha256

pub record EncodedRefs (c : Cipher) : Type 0 where
  pub depth : ℕ
  pub degree : ℕ
  pub length : ℕ
  pub elements : List c.Sha256

-- What a Refs uses of the package `encoder`: numbers are four bytes, and what is written is read.
pub record RefsCodec (c : Cipher) : Type 0 where
  pub encode_node : EncodedNode c → Val
  pub decode_node : Val → Result (EncodedNode c)
  pub encode_refs : EncodedRefs c → Val
  pub decode_refs : Val → Result (EncodedRefs c)
  pub decode_node-encode_node :
      (n : EncodedNode c) → n.length < u32 → decode_node (encode_node n) ≡ ok n
  pub node_bound : (val : Val) (n : EncodedNode c) → decode_node val ≡ ok n → n.length < u32
  pub is_empty-encode_node : (n : EncodedNode c) → is_empty (encode_node n) ≡ false
  pub is_empty-encode_refs : (n : EncodedRefs c) → is_empty (encode_refs n) ≡ false
  pub decode_refs-encode_refs :
      (n : EncodedRefs c)
      → n.depth < u32
      → n.degree < u32
      → n.length < u32
      → decode_refs (encode_refs n) ≡ ok n
  pub refs_bound :
      (val : Val) (n : EncodedRefs c) → decode_refs val ≡ ok n → (n.depth < u32) × (n.length < u32)

-- `Flags`; the hash table itself, an index for access by hash, is left out
pub record Flags : Type 0 where
  pub hash_table : Bool
  pub entire : Bool
  pub lazy : Bool

-- `Pack`, as a Refs uses it: a store of values by hash, the flags and the default degree. `get` is
-- what `Get` gives at a store; what it does to a cache in front of the store is not seen through it.
pub record Pack (c : Cipher) : Type 1 where
  pub Store : Type 0
  pub get : c.Sha256 → Store → Result Val
  pub set : c.Sha256 → Val → Store → Result Store
  pub flags : Flags
  pub degree : ℕ

-- `refsNode` over its leafs or branches; `loaded` and `changed` are `loadedMod` and `contentMod`
pub record Body (c : Cipher) (A : Type 0) : Type 0 where
  pub hash : c.Sha256
  pub length : ℕ
  pub loaded : Bool
  pub changed : Bool
  pub elements : List A

abbrev pub Child : Cipher → ℕ → Type 0
Child c zero = c.Sha256
Child c (suc d) = Body c (Child c d)

abbrev pub RefsNode : Cipher → ℕ → Type 0
RefsNode c d = Body c (Child c d)

-- `Refs` once it is initialized
pub record Loaded (c : Cipher) : Type 0 where
  pub depth : ℕ
  pub degree : ℕ
  pub flags : Flags
  pub node : RefsNode c depth

-- `Refs`
pub record Refs (c : Cipher) : Type 0 where
  pub hash : c.Sha256
  pub body : Option (Loaded c)
