-- ===== src/Registry/Refs/Ascend.antt =====
-- skyobject/registry/refs.go and refs_node.go: `AscendFrom`, for a function that keeps a state of its own
-- and does not change the Refs: then the search from the root after a change, and the stack of
-- iterators that asks for it, do nothing.
use cxo.Prelude.{
  ℕ, zero, suc, ◌+◌, Bool, true, false, List, [], ◌∷◌, Option, none, some, Error, Result, ok, err,
  panic, ◌&&◌, if◌then◌else◌, ◌==◌, ltb, ◌>>=◌,
}
use cxo.Prelude.Int.{ℤ, pos}
use cxo.Cipher.{Cipher}
use cxo.Registry.Refs.{RefsCodec, Flags, Pack, RefsNode, Loaded, Refs}
use cxo.Registry.Refs.Load.{load_node_if_need, initialize}
use cxo.Registry.Refs.Find.{validate_index, with_node}

-- Where an iteration is: the state of the function, the elements passed, and an error, which may be
-- `ErrStopIteration`.
pub record Walk (S : Type 0) : Type 0 where
  pub state : S
  pub passed : ℕ
  pub error : Option Error

-- `IterateFunc`
abbrev pub IterateFunc : Type 0 → Type 0 → Type 0
IterateFunc H S = ℕ → H → S → S × Option Error

-- `ErrStopIteration` ends an iteration without an error.
abbrev pub hide_stop : Option Error → Option Error
hide_stop (some Error.stop_iteration) = none
hide_stop e = e

abbrev pub is_zero : ℤ → Bool
is_zero (pos zero) = true
is_zero _ = false

module _ {S : Type 0} where
  -- `pass += subpass`
  abbrev pub pass_more : ℕ → Walk S → Walk S
  pass_more n w = record w { passed = n + w.passed }

  -- An element for which the function was called, and the rest if there is no error.
  abbrev pub after_call : S × Option Error → (S → Walk S) → Walk S
  after_call (s, some e) rest = record { state = s; passed = 0; error = some e }
  after_call (s, none) rest = pass_more 1 (rest s)

module _ {H S : Type 0} (f : IterateFunc H S) where
  -- `ascendNodeLeafs`
  unfoldable pub ascend_leafs : List H → ℕ → ℕ → S → Walk S
  ascend_leafs [] shift i s = record { state = s; passed = 0; error = none }
  ascend_leafs (h ∷ es) shift i s =
      if ltb shift i
      then ascend_leafs es (suc shift) i s
      else after_call (f i h s) (λ s. ascend_leafs es (suc shift) (suc i) s)

module _ {c : Cipher} {S : Type 0} (d : ℕ) where
  -- A branch that was walked, and the rest if there is no error.
  abbrev pub after_branch :
      Option Error
      → Walk S
      → RefsNode c d
      → List (RefsNode c d)
      → (Walk S → Result (Walk S × List (RefsNode c d)))
      → Result (Walk S × List (RefsNode c d))
  after_branch (some e) w b l rest = ok (w, b ∷ l)
  after_branch none w b l rest = do r ← rest w; ok (pass_more w.passed r.0, b ∷ r.1)

  -- A branch that is loaded, or the error of loading it.
  abbrev pub loaded_or :
      Result (RefsNode c d)
      → S
      → List (RefsNode c d)
      → (RefsNode c d → Result (Walk S × List (RefsNode c d)))
      → Result (Walk S × List (RefsNode c d))
  loaded_or panic s l go_on = panic
  loaded_or (err e) s l go_on = ok (record { state = s; passed = 0; error = some e }, l)
  loaded_or (ok b) s l go_on = go_on b

  -- `ascendNodeBranches`, over the walk of a branch
  unfoldable pub ascend_branches :
      (RefsNode c d → Result (RefsNode c d))
      → (RefsNode c d → ℕ → ℕ → S → Result (Walk S × RefsNode c d))
      → List (RefsNode c d)
      → ℕ
      → ℕ
      → S
      → Result (Walk S × List (RefsNode c d))
  ascend_branches load node [] shift i s = ok (record { state = s; passed = 0; error = none }, [])
  ascend_branches load node (b ∷ l) shift i s = loaded_or (load b) s (b ∷ l) λ b.
      if ltb (shift + b.length) i
      then (do r ← ascend_branches load node l (shift + b.length) i s; ok (r.0, b ∷ r.1))
      else (do
        x ← node b shift i s
        after_branch x.0.error x.0 x.1 l
            (λ w. ascend_branches load node l (shift + b.length) (i + w.passed) w.state))

module _ {c : Cipher} (codec : RefsCodec c) (p : Pack c) {S : Type 0}
    (f : IterateFunc c.Sha256 S) where
  -- `ascendNode`
  unfoldable pub ascend_node :
      (d : ℕ) → Flags → p.Store → RefsNode c d → ℕ → ℕ → S → Result (Walk S × RefsNode c d)
  unfolding ascend_leafs ascend_branches
  ascend_node zero flags st rn shift i s = ok (ascend_leafs f rn.elements shift i s, rn)
  ascend_node (suc d) flags st rn shift i s = do
    r ←
        ascend_branches d (load_node_if_need codec p d flags st)
          (λ b shift i s. ascend_node d flags st b shift i s) rn.elements shift i s
    ok (r.0, record rn { elements = r.1 })

  -- `ascendFrom`, once the Refs is initialized, and as a whole
  abbrev pub ascend_in :
      p.Store → ℤ → S → Refs c → Option (Loaded c) → Result ((S × Option Error) × Refs c)
  ascend_in st from s r none = panic
  ascend_in st from s r (some b) =
      if is_zero from && b.node.length == 0 then ok ((s, none), record r { body = some b }) else (do
        i ← validate_index from b.node.length
        x ← ascend_node b.depth b.flags st b.node 0 i s
        ok ((x.0.state, hide_stop x.0.error), with_node codec p r b x.1))

  unfoldable pub ascend_from : p.Store → Refs c → ℤ → S → Result ((S × Option Error) × Refs c)
  unfolding ascend_node
  ascend_from st r from s = do r ← initialize codec p st r; ascend_in st from s r r.body
