-- ===== src/Registry/Refs/Change.antt =====
-- skyobject/registry/refs_node.go and refs.go: `SetHashByIndex`, and how a change goes up to the root
-- (`bubbleContentChanges`): the hash of each node above is updated, or marked if the Refs is lazy. The
-- elements above a leaf are those that the search for it has passed, which are loaded.
use cxo.Prelude.{
  ℕ, zero, suc, ◌%◌, Bool, true, false, not, List, [], map, Option, none, some, Result, ok, panic,
  ite, if◌then◌else◌, ◌==◌, ◌>>=◌,
}
use cxo.Prelude.Int.{ℤ}
use cxo.Prelude.Lists.{set}
use cxo.Cipher.{Cipher}
use cxo.Cxds.{Val, u32}
use cxo.Registry.Refs.{RefsCodec, Flags, Pack, Child, RefsNode, Loaded, Refs}
use cxo.Registry.Refs.Load.{load_node_if_need, initialize}
use cxo.Registry.Refs.Find.{in_branch, in_place, element_by_index, validate_index, with_node}

-- The hashes of leafs or of branches.
abbrev pub child_hashes : (c : Cipher) (d : ℕ) → List (Child c d) → List c.Sha256
child_hashes c zero es = es
child_hashes c (suc d) es = map (λ b. b.hash) es

module _ {c : Cipher} (codec : RefsCodec c) (p : Pack c) where
  -- `encode` of a node and of a Refs
  abbrev pub encode : (d : ℕ) → RefsNode c d → Val
  encode d rn =
      codec.encode_node
        (record { length = rn.length % u32; elements = child_hashes c d rn.elements })

  abbrev pub encode_whole : Loaded c → Val
  encode_whole b = codec.encode_refs (record {
    depth = b.depth % u32;
    degree = b.degree % u32;
    length = b.node.length % u32;
    elements = child_hashes c b.depth b.node.elements;
  })

  -- `updateHash` and `updateHashIfNeed` of a node that is not the root
  abbrev pub update_hash : (d : ℕ) → p.Store → RefsNode c d → Result (p.Store × RefsNode c d)
  update_hash d st rn =
      let val = encode d rn in
      ite (c.hash_dec (c.sum val) rn.hash) (ok (st, rn))
        (do st ← p.set (c.sum val) val st; ok (st, record rn { hash = c.sum val; changed = false }))

  abbrev pub update_hash_if_need :
      (d : ℕ) → Bool → p.Store → RefsNode c d → Result (p.Store × RefsNode c d)
  update_hash_if_need d need st rn =
      if need then update_hash d st rn else ok (st, record rn { changed = true })

  -- The element with an index is replaced, and the nodes between it and this one are updated.
  unfoldable pub set_element :
      (d : ℕ) → Flags → p.Store → c.Sha256 → RefsNode c d → ℕ → Result (p.Store × RefsNode c d)
  unfolding in_branch
  set_element zero flags st hash rn i = ok (st, record rn { elements = set rn.elements i hash })
  set_element (suc d) flags st hash rn i = do
    r ←
        in_branch d (load_node_if_need codec p d flags st)
          (λ b k. do
            x ← set_element d flags st hash b k
            in_place (update_hash_if_need d (not flags.lazy) x.0 x.1))
          rn.elements i
    ok (r.0, record rn { elements = r.1 })

  -- `updateHash` of a Refs
  abbrev pub update_refs : p.Store → Refs c → Loaded c → Result (p.Store × Refs c)
  update_refs st r b =
      if b.node.length == 0
      then ok (
        st,
        record {
          hash = c.blank_hash;
          body = some (record b { node = record b.node { changed = false; elements = [] } });
        },
      )
      else (let val = encode_whole b in
          do
            st ← ite (c.hash_dec r.hash (c.sum val)) (ok st) (p.set (c.sum val) val st)
            ok (
              st,
              record {
                hash = c.sum val;
                body = some (record b { node = record b.node { changed = false } });
              },
            ))

  -- `updateHashIfNeed` of a Refs
  abbrev pub update_refs_if_need : Bool → p.Store → Refs c → Loaded c → Result (p.Store × Refs c)
  update_refs_if_need need st r b =
      if need
      then update_refs st r b
      else ok (st, with_node codec p r b (record b.node { changed = true }))

  -- `setElementHash`, for the element that a search has found
  abbrev pub set_element_hash :
      p.Store → Refs c → Loaded c → ℕ → c.Sha256 → c.Sha256 → Result (p.Store × Refs c)
  set_element_hash st r b k old hash =
      ite (c.hash_dec old hash) (ok (st, record r { body = some b })) (do
        y ← set_element b.depth b.flags st hash b.node k
        update_refs_if_need (not b.flags.lazy) y.0 r (record b { node = y.1 }))

  -- `SetHashByIndex`, once the Refs is initialized, and as a whole
  abbrev pub set_hash_in :
      p.Store → ℤ → c.Sha256 → Refs c → Option (Loaded c) → Result (p.Store × Refs c)
  set_hash_in st i hash r none = panic
  set_hash_in st i hash r (some b) = do
    k ← validate_index i b.node.length
    x ← element_by_index codec p b.depth b.flags st b.node k
    set_element_hash st r (record b { node = x.1 }) k x.0 hash

  unfoldable pub set_hash_by_index : p.Store → Refs c → ℤ → c.Sha256 → Result (p.Store × Refs c)
  unfolding set_element element_by_index
  set_hash_by_index st r i hash = do r ← initialize codec p st r; set_hash_in st i hash r r.body
