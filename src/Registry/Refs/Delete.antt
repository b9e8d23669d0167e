-- ===== src/Registry/Refs/Delete.antt =====
-- skyobject/registry/refs.go and refs_node.go: `DeleteByIndex`. Go counts the length of a node down with
-- an `int`; a node in which a search ends has a length of at least 1, unless its lengths are wrong.
use cxo.Prelude.{
  ℕ, zero, suc, ◌-◌, not, List, [], Option, none, some, Result, ok, panic, if◌then◌else◌, ◌==◌,
  ◌>>=◌,
}
use cxo.Prelude.Int.{ℤ}
use cxo.Prelude.Lists.{get_elem?, remove}
use cxo.Cipher.{Cipher}
use cxo.Registry.Refs.{RefsCodec, Flags, Pack, RefsNode, Loaded, Refs}
use cxo.Registry.Refs.Load.{load_node_if_need, initialize}
use cxo.Registry.Refs.Find.{found_or_invalid, in_branch, in_place, validate_index}
use cxo.Registry.Refs.Change.{update_hash_if_need, update_refs_if_need}

module _ {c : Cipher} (codec : RefsCodec c) (p : Pack c) where
  -- A branch that has lost an element: an empty one goes, any other is updated.
  abbrev pub drop_or_update :
      (d : ℕ) → Flags → p.Store × RefsNode c d → Result (p.Store × List (RefsNode c d))
  drop_or_update d flags x =
      if x.1.length == 0
      then ok (x.0, [])
      else in_place (update_hash_if_need codec p d (not flags.lazy) x.0 x.1)

  -- `deleteElementByIndex`, without the update of the node itself
  unfoldable pub delete_element :
      (d : ℕ) → Flags → p.Store → RefsNode c d → ℕ → Result (p.Store × RefsNode c d)
  unfolding in_branch
  delete_element zero flags st rn i = do
    _ ← found_or_invalid (get_elem? rn.elements i)
    ok (st, record rn { length = rn.length - 1; elements = remove rn.elements i })
  delete_element (suc d) flags st rn i = do
    r ←
        in_branch d (load_node_if_need codec p d flags st)
          (λ b k. do x ← delete_element d flags st b k; drop_or_update d flags x) rn.elements i
    ok (r.0, record rn { length = rn.length - 1; elements = r.1 })

  -- `DeleteByIndex`, once the Refs is initialized, and as a whole
  abbrev pub delete_in : p.Store → ℤ → Refs c → Option (Loaded c) → Result (p.Store × Refs c)
  delete_in st i r none = panic
  delete_in st i r (some b) = do
    k ← validate_index i b.node.length
    x ← delete_element b.depth b.flags st b.node k
    update_refs_if_need codec p (not b.flags.lazy) x.0 r (record b { node = x.1 })

  unfoldable pub delete_by_index : p.Store → Refs c → ℤ → Result (p.Store × Refs c)
  unfolding delete_element
  delete_by_index st r i = do r ← initialize codec p st r; delete_in st i r r.body
