-- ===== src/Registry/Refs/Find.antt =====
-- skyobject/registry/refs_node.go and refs.go: `elementByIndex` and `HashByIndex`. The branches that a
-- search loads stay loaded.
use cxo.Prelude.{
  ℕ, zero, suc, ◌-◌, List, [], ◌∷◌, ◌++◌, Option, none, some, Error, Result, ok, err, panic,
  if◌then◌else◌, ltb, ◌>>=◌,
}
use cxo.Prelude.Int.{ℤ, pos, negsuc}
use cxo.Prelude.Lists.{get_elem?}
use cxo.Cipher.{Cipher}
use cxo.Registry.Refs.{RefsCodec, Flags, Pack, RefsNode, Loaded, Refs}
use cxo.Registry.Refs.Load.{load_node_if_need, initialize}

-- A value of a list, or `ErrInvalidRefs`.
abbrev pub found_or_invalid : {A : Type 0} → Option A → Result A
found_or_invalid none = err Error.invalid_refs
found_or_invalid (some x) = ok x

-- The loop over branches that looks for the one with an index in it, and goes on inside of it, which
-- gives what takes its place. If the index is in none of them it goes on in the last one; with no
-- branch there is a nil pointer.
unfoldable pub in_branch :
    {c : Cipher} {X : Type 0} (d : ℕ)
    → (RefsNode c d → Result (RefsNode c d))
    → (RefsNode c d → ℕ → Result (X × List (RefsNode c d)))
    → List (RefsNode c d)
    → ℕ
    → Result (X × List (RefsNode c d))
in_branch d load inside [] i = panic
in_branch d load inside (b ∷ []) i = do
  b ← load b
  inside b (if ltb i b.length then i else i - b.length)
in_branch d load inside (b ∷ b2 ∷ l) i = do
  b ← load b
  let rest = in_branch d load inside (b2 ∷ l) (i - b.length) in
      if ltb i b.length
      then (do r ← inside b i; ok (r.0, r.1 ++ (b2 ∷ l)))
      else (do r ← rest; ok (r.0, b ∷ r.1))

-- A branch that stays in its place.
abbrev pub in_place : {A X : Type 0} → Result (X × A) → Result (X × List A)
in_place result = do r ← result; ok (r.0, r.1 ∷ [])

-- `validateIndex`, which gives the index back as a natural number
abbrev pub validate_index : ℤ → ℕ → Result ℕ
validate_index (pos i) n = if ltb i n then ok i else err Error.index_out_of_range
validate_index (negsuc i) n = err Error.index_out_of_range

module _ {c : Cipher} (codec : RefsCodec c) (p : Pack c) where
  -- `elementByIndex`
  unfoldable pub element_by_index :
      (d : ℕ) → Flags → p.Store → RefsNode c d → ℕ → Result (c.Sha256 × RefsNode c d)
  unfolding in_branch
  element_by_index zero flags st rn i = do
    h ← found_or_invalid (get_elem? rn.elements i)
    ok (h, rn)
  element_by_index (suc d) flags st rn i = do
    r ←
        in_branch d (load_node_if_need codec p d flags st)
          (λ b k. in_place (element_by_index d flags st b k)) rn.elements i
    ok (r.0, record rn { elements = r.1 })

  -- The Refs with another root node.
  abbrev pub with_node : Refs c → (b : Loaded c) → RefsNode c b.depth → Refs c
  with_node r b rn = record r { body = some (record b { node = rn }) }

  -- `HashByIndex`, once the Refs is initialized, and as a whole
  abbrev pub hash_in : p.Store → ℤ → Refs c → Option (Loaded c) → Result (c.Sha256 × Refs c)
  hash_in st i r none = panic
  hash_in st i r (some b) = do
    k ← validate_index i b.node.length
    x ← element_by_index b.depth b.flags st b.node k
    ok (x.0, with_node r b x.1)

  unfoldable pub hash_by_index : p.Store → Refs c → ℤ → Result (c.Sha256 × Refs c)
  unfolding element_by_index
  hash_by_index st r i = do r ← initialize codec p st r; hash_in st i r r.body
