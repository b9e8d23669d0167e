-- ===== src/Registry/Refs/Ascends.antt =====
-- skyobject/registry: `AscendFrom` calls the function for the elements of the list from an index on.
use cxo.Prelude.{
  ℕ, zero, suc, ◌+◌, ◌-◌, ◌≤◌, ◌≡◌, inl, inr, refl, sym, ap, ◌∙◌, subst, List, [], ◌∷◌, Option,
  none, some, Error, Result, ok, length, arith, ltb, Bool-cases, ◌>>=◌, if_true, if_false,
}
use cxo.Prelude.Lists.{drop, drop-append, drop-append_right, drop-all, length-drop}
use cxo.Cipher.{Cipher}
use cxo.Registry.Refs.{RefsCodec, Flags, Pack, RefsNode}
use cxo.Registry.Refs.Load.{load_node_if_need}
use cxo.Registry.Refs.Holds.{Parts, Saved, Holds, HoldsLoaded, HashOf}
use cxo.Registry.Refs.Loads.{load_node_if_need-Holds}
use cxo.Registry.Refs.Each.{each, then_by, then_walk, ascend_leafs-each, each-append, each_passed}
use cxo.Registry.Refs.Ascend.{Walk, IterateFunc, after_branch, ascend_branches, ascend_node}

module _ {c : Cipher} (codec : RefsCodec c) (p : Pack c) (st : p.Store) (E : HashOf c)
    (known_hash : (d : ℕ) (hash : c.Sha256) (xs : List c.Sha256)
      → Saved codec p st d hash xs
      → E d hash xs)
    {S : Type 0} (f : IterateFunc c.Sha256 S) where
  module _ (d : ℕ) where
    -- The walk of a branch, and of those behind it.
    after_branch_lem :
        (P : List (RefsNode c d) → Type 0) (o : Option Error) (w : Walk S) (b : RefsNode c d)
        (l : List (RefsNode c d)) (rest : Walk S → Result (Walk S × List (RefsNode c d)))
        (next : Walk S → Walk S)
        → P l
        → (o ≡ none → (l' : List (RefsNode c d)) × (rest w ≡ ok (next w, l')) × P l')
        → (l' : List (RefsNode c d)) × (after_branch d o w b l rest ≡ ok (then_by o w next, b ∷ l'))
          × P l'
    after_branch_lem P (some e) w b l rest next kept more = (l, refl, kept)
    after_branch_lem P none w b l rest next kept more =
        let (l', run, held) = more refl in (l', rw run refl, held)

    -- A walk of a node calls the function for its elements from an index on.
    abbrev Walks : (RefsNode c d → ℕ → ℕ → S → Result (Walk S × RefsNode c d)) → Type 0
    Walks node =
        (rn : RefsNode c d) (xs : List c.Sha256) (shift k : ℕ) (s : S)
        → E d rn.hash xs × HoldsLoaded codec p st E d rn xs
        → (rn' : RefsNode c d) × (node rn shift (shift + k) s
            ≡ ok (each f (shift + k) (drop k xs) s, rn'))
          × Holds codec p st E d rn' xs

    ascend_branches-each :
        (flags : Flags) (node : RefsNode c d → ℕ → ℕ → S → Result (Walk S × RefsNode c d))
        → Walks node
        → (l : List (RefsNode c d)) (xs : List c.Sha256) (shift k : ℕ) (s : S)
        → Parts (Holds codec p st E d) l xs
        → (l' : List (RefsNode c d)) × (ascend_branches d
              (load_node_if_need codec p d flags st)
              node
              l
              shift
              (shift + k)
              s
            ≡ ok (each f (shift + k) (drop k xs) s, l'))
          × Parts (Holds codec p st E d) l' xs
    unfolding ascend_branches
    ascend_branches-each flags node walks [] xs shift k s e =
        let none_left : drop k xs ≡ [] = ap (drop k) e ∙ drop-all k [] (omega arith) in
        ([], ap (λ l. ok (each f (shift + k) l s, [])) (sym none_left), e)
    ascend_branches-each flags node walks (b ∷ l) xs shift k s (ys, zs, holds, rest, e) =
        let (b1, loads, here) =
          load_node_if_need-Holds codec p st E known_hash flags d b ys holds in
        elim (Bool-cases (ltb (shift + b1.length) (shift + k))) [
          | inl skip ↦
              let m = k - b1.length in
              let split : length ys + m ≡ k = ground (arith, here.1.1) in
              let index : shift + b1.length + m ≡ shift + k = ground (arith, here.1.1) in
              let (l', run, parts) =
                ascend_branches-each flags node walks l zs (shift + b1.length) m s rest in
              let same : each f (shift + b1.length + m) (drop m zs) s
                  ≡ each f (shift + k) (drop k xs) s =
                ap (λ i. each f i (drop m zs) s) index
                ∙ ap (λ l. each f (shift + k) l s)
                    (sym (ap (drop k) e ∙ drop-append_right k m ys zs split)) in
              (
                b1 ∷ l',
                rw loads (
                    if_true _ _ skip
                    ∙ ap
                        (λ i.
                          ascend_branches d (load_node_if_need codec p d flags st) node l
                            (shift + b1.length) i s
                          >>= (λ r. ok (r.0, b1 ∷ r.1)))
                        (sym index)
                    ∙ ap (λ r. r >>= (λ r. ok (r.0, b1 ∷ r.1))) run
                    ∙ ap (λ w. ok (w, b1 ∷ l')) same),
                (ys, zs, (here.0, inl here.1), parts, e),
              )
          | inr stay ↦
              let inside : k ≤ length ys = ground (arith, here.1.1) in
              let (b2, walked, held) = walks b1 ys shift k s here in
              let w = each f (shift + k) (drop k ys) s in
              let next : Walk S → Walk S = λ w. each f (shift + k + w.passed) zs w.state in
              let (l', run, parts) =
                after_branch_lem (λ l. Parts (Holds codec p st E d) l zs) w.error w b2 l
                  (λ w.
                    ascend_branches d (load_node_if_need codec p d flags st) node l
                      (shift + b1.length) (shift + k + w.passed) w.state)
                  next rest
                  (λ clear.
                    let passed = each_passed f (drop k ys) (shift + k) s clear in
                    let index : shift + b1.length + 0 ≡ shift + k + w.passed =
                      omega (arith, passed, length-drop k ys inside, here.1.1) in
                    let (l', run, parts) =
                      ascend_branches-each flags node walks l zs (shift + b1.length) 0 w.state
                        rest in
                    (
                      l',
                      subst
                          (λ i.
                            ascend_branches d (load_node_if_need codec p d flags st) node l
                              (shift + b1.length) i w.state
                            ≡ ok (each f i zs w.state, l'))
                          index run,
                      parts,
                    )) in
              let same : then_walk w next ≡ each f (shift + k) (drop k xs) s =
                sym (each-append f (drop k ys) zs (shift + k) s)
                ∙ ap (λ l. each f (shift + k) l s)
                    (sym (ap (drop k) e ∙ drop-append k ys zs inside)) in
              (
                b2 ∷ l',
                rw loads (
                    if_false _ _ stay
                    ∙ ap
                        (λ r. r >>= (λ x. after_branch d x.0.error x.0 x.1 l (λ w.
                          ascend_branches d (load_node_if_need codec p d flags st) node l
                            (shift + b1.length) (shift + k + w.passed) w.state)))
                        walked
                    ∙ run
                    ∙ ap (λ w. ok (w, b2 ∷ l')) same),
                (ys, zs, held, parts, e),
              )
        ]

  pub ascend_node-each :
      (flags : Flags) (d : ℕ) (rn : RefsNode c d) (xs : List c.Sha256) (shift k : ℕ) (s : S)
      → HoldsLoaded codec p st E d rn xs
      → (rn' : RefsNode c d) × (ascend_node codec p f d flags st rn shift (shift + k) s
          ≡ ok (each f (shift + k) (drop k xs) s, rn'))
        × (rn'.hash ≡ rn.hash)
        × HoldsLoaded codec p st E d rn' xs
  unfolding ascend_node
  ascend_node-each flags zero rn xs shift k s (loaded, len, same) = (
    rn,
    ap (λ w. ok (w, rn))
        (ascend_leafs-each f rn.elements shift k s
          ∙ ap (λ l. each f (shift + k) (drop k l) s) same),
    refl,
    (loaded, len, same),
  )
  ascend_node-each flags (suc d) rn xs shift k s (loaded, len, parts) =
      let (l', run, parts') =
        ascend_branches-each d flags (λ b shift i s. ascend_node codec p f d flags st b shift i s)
          (λ b ys shift k s holds.
            let (b', e, hash, held) = ascend_node-each flags d b ys shift k s holds.1 in
            (b', e, (subst (λ h. E d h ys) (sym hash) holds.0, inl held)))
          rn.elements xs shift k s parts in
      (record rn { elements = l' }, rw run refl, refl, (loaded, len, parts'))
