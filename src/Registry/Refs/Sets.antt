-- ===== src/Registry/Refs/Sets.antt =====
-- skyobject/registry: `SetHashByIndex` replaces an element of the list, and what is saved is the new list.
use cxo.Prelude.{
  Safe, Safe-bind, ℕ, zero, suc, ◌<◌, ◌≡◌, inl, inr, refl, sym, ap, ◌∙◌, subst, false, not, List,
  [], ◌∷◌, ◌++◌, none, some, Result, length, if_neg, if_pos, arith, some-injective, ltb, Bool-cases,
  ◌>>=◌,
}
use mathlib.Core.List.{append-nil}
use cxo.Prelude.Int.{ℤ, pos, negsuc}
use cxo.Prelude.Lists.{get_elem?, get_elem?-none, set, set-append, set-append_right, length-set}
use cxo.Cipher.{Cipher}
use cxo.Cxds.{u32}
use cxo.Registry.Refs.{RefsCodec, Flags, Pack, RefsNode, Loaded, Refs}
use cxo.Registry.Refs.Load.{validate_degree}
use cxo.Registry.Refs.Holds.{Saved, SavedRefs, Held, Holds, HoldsLoaded, Whole}
use cxo.Registry.Refs.Loads.{initialize-Hold}
use cxo.Registry.Refs.Find.{in_place}
use cxo.Registry.Refs.Finds.{element_by_index-Found, lookup_index}
use cxo.Registry.Refs.Visits.{Visits, in_branch-Visits}
use cxo.Registry.Refs.Change.{
  update_hash_if_need, set_element, set_element_hash, set_hash_in, set_hash_by_index,
}
use cxo.Registry.Refs.Kept.{
  PackLaws, Refusal, Kept, ChangesTo, ChangesAt, Sound, Grows, Holds-Grows,
}
use cxo.Registry.Refs.Updates.{update_branch-Saved}
use cxo.Registry.Refs.Whole.{change_root-ChangesTo}

module _ {c : Cipher} (codec : RefsCodec c) (p : Pack c) (laws : PackLaws c p) where
  module _ (st : p.Store) (sound : Sound p st) (flags : Flags) (busy : flags.lazy ≡ false)
      (hash : c.Sha256) where
    -- What a change does to the list, and to the store.
    abbrev Changed : List c.Sha256 → ℕ → p.Store → List c.Sha256 → Type 0
    Changed xs i st' xs' = (xs' ≡ set xs i hash) × Sound p st' × Grows p st st'

    abbrev HeldAfter : (d : ℕ) → p.Store → RefsNode c d → List c.Sha256 → Type 0
    HeldAfter d st' = Holds codec p st' (Saved codec p st') d

    abbrev SetIn : (d : ℕ) → RefsNode c d → List c.Sha256 → ℕ → p.Store × RefsNode c d → Type 0
    SetIn d rn xs i y =
        (y.1.hash ≡ rn.hash)
        × Sound p y.0
        × Grows p st y.0
        × HoldsLoaded codec p y.0 (Saved codec p y.0) d y.1 (set xs i hash)

    -- An element is replaced, and the nodes below this one that change are saved.
    set_element-Held :
        (d : ℕ) (rn : RefsNode c d) (xs : List c.Sha256) (i : ℕ)
        → HoldsLoaded codec p st (Saved codec p st) d rn xs
        → i < length xs
        → Safe (Refusal laws) (SetIn d rn xs i) (set_element codec p d flags st hash rn i)
    unfolding set_element
    set_element-Held zero rn xs i (loaded, len, same) lt = inl (
      (st, record rn { elements = set rn.elements i hash }),
      refl,
      (
        refl,
        sound,
        (λ k v e. e),
        (loaded, len ∙ sym (length-set xs i hash), ap (λ l. set l i hash) same),
      ),
    )
    set_element-Held (suc d) rn xs i (loaded, len, parts) lt =
        let inside : RefsNode c d → ℕ → Result (p.Store × List (RefsNode c d)) = λ b k.
          set_element codec p d flags st hash b k
          >>= (λ x. in_place (update_hash_if_need codec p d (not flags.lazy) x.0 x.1)) in
        let visits : Visits codec p st (Saved codec p st) (λ d h ys s. s) flags d Changed
            (HeldAfter d) (Refusal laws) inside =
          λ b ys k holds lt.
            Safe-bind (Refusal laws) _ _ _ _ (set_element-Held d b ys k holds.1 lt)
              (λ x (hash', sound1, grows1, held).
                Safe-bind (Refusal laws) _ _ _ _
                  (update_branch-Saved codec p laws st x.0 d flags b x.1 ys (set ys k hash) busy
                    holds.0.1 hash' (omega (arith, length-set ys k hash)) sound1 grows1 held)
                  (λ y (sound2, grows2, held2). inl (
                    (y.0, y.1 ∷ []),
                    refl,
                    (
                      set ys k hash,
                      (refl, sound2, grows2),
                      (set ys k hash, [], held2, refl, sym (append-nil (set ys k hash))),
                    ),
                  ))) in
        Safe-bind (Refusal laws) _ _ _ _
          (in_branch-Visits codec p st (Saved codec p st) (λ d h ys s. s) flags d Changed
            (HeldAfter d) (Refusal laws) inside rn.elements xs i
            (λ ys zs ys' i x lt q.
              (ap (λ w. w ++ zs) q.0 ∙ sym (set-append ys zs i hash lt), q.1, q.2))
            (λ ys zs zs' i k x e q.
              (ap (λ w. ys ++ w) q.0 ∙ sym (set-append_right ys zs i k hash e), q.1, q.2))
            (λ ys ys' zs i x b q h. Holds-Grows codec p st x q.2 d b zs h) visits parts lt)
          (λ y (xs', (same, sound', grows), after). inl (
            (y.0, record rn { elements = y.1 }),
            refl,
            (
              refl,
              sound',
              grows,
              (
                loaded,
                len ∙ sym (length-set xs i hash),
                subst (λ w. Held codec p y.0 (Saved codec p y.0) (suc d) y.1 w) same after,
              ),
            ),
          ))

-- The list with another element at an index, which may be negative.
abbrev pub set_index : {A : Type 0} → List A → ℤ → A → List A
set_index xs (pos i) y = set xs i y
set_index xs (negsuc i) y = xs

set-same : {A : Type 0} (xs : List A) (i : ℕ) (y : A) → get_elem? xs i ≡ some y → set xs i y ≡ xs
set-same [] i y e = refl
set-same (x ∷ xs) zero y e = ap (λ z. z ∷ xs) (sym (some-injective x y e))
set-same (x ∷ xs) (suc i) y e = ap (λ l. x ∷ l) (set-same xs i y e)

module _ {c : Cipher} (codec : RefsCodec c) (p : Pack c) (laws : PackLaws c p) (st : p.Store)
    (sound : Sound p st) where
  -- `setElementHash` of an element that was found.
  set_element_hash-ChangesAt :
      (r : Refs c) (b : Loaded c) (xs : List c.Sha256) (k : ℕ) (old hash : c.Sha256)
      → b.flags.lazy ≡ false
      → k < length xs
      → get_elem? xs k ≡ some old
      → Whole codec p st (Saved codec p st) b xs
      → SavedRefs codec p st r.hash xs
      → ChangesAt codec laws st
          (set xs k hash)
          (some old)
          (set_element_hash codec p st r b k old hash)
  set_element_hash-ChangesAt r b xs k old hash busy lt found (valid, deep, small, holds) saved =
      elim (c.hash_dec old hash) [
        | yes same ↦
            let list = set-same xs k hash (found ∙ ap some same) in
            inl (
              (st, record r { body = some b }),
              if_pos (c.hash_dec old hash) same _ _,
              (
                sound,
                (λ j v e. e),
                subst (Kept codec p st (record r { body = some b })) (sym list)
                    ((valid, deep, small, holds), saved, busy),
              ),
            )
        | no other ↦
            subst (ChangesTo codec laws st (set xs k hash))
              (sym (if_neg (c.hash_dec old hash) other _ _))
              (change_root-ChangesTo codec p laws st r b _ xs (set xs k hash) busy saved
                (elim (set_element-Held codec p laws st sound b.flags busy hash b.depth b.node xs k
                  holds lt) [
                    | inr failed ↦ inr failed
                    | inl (y, e, (hash', sound1, grows1, held)) ↦
                        let small1 : y.1.length < u32 =
                          omega (arith, small, held.1, holds.1, length-set xs k hash) in
                        inl (y, e, (sound1, grows1, (valid, deep, small1, held)))
                  ]))
      ]

  set_hash_in-ChangesAt :
      (r : Refs c) (b : Loaded c) (xs : List c.Sha256) (i : ℤ) (hash : c.Sha256)
      → b.flags.lazy ≡ false
      → Whole codec p st (Saved codec p st) b xs
      → SavedRefs codec p st r.hash xs
      → ChangesAt codec laws st
          (set_index xs i hash)
          (lookup_index xs i)
          (set_hash_in codec p st i hash r (some b))
  set_hash_in-ChangesAt r b xs (negsuc i) hash busy whole saved = refl
  set_hash_in-ChangesAt r b xs (pos i) hash busy (valid, deep, small, holds) saved =
      elim (Bool-cases (ltb i b.node.length)) [
        | inl test ↦
            let lt : i < length xs = ground (arith, holds.1) in
            let (old, rn, e, found, hash', held) =
              element_by_index-Found codec p st (Saved codec p st) (λ d h ys s. s) b.flags b.depth
                b.node xs i holds lt in
            let small1 : rn.length < u32 = omega (arith, small, held.1, holds.1) in
            subst
              (λ o.
                ChangesAt codec laws st (set xs i hash) o
                  (set_hash_in codec p st (pos i) hash r (some b)))
              (sym found)
              (subst (ChangesAt codec laws st (set xs i hash) (some old)) (sym (rw (test, e) refl))
                (set_element_hash-ChangesAt r (record b { node = rn }) xs i old hash busy lt found
                  (valid, deep, small1, held) saved))
        | inr test ↦
            subst
              (λ o.
                ChangesAt codec laws st (set xs i hash) o
                  (set_hash_in codec p st (pos i) hash r (some b)))
              (sym (get_elem?-none xs i (ground (arith, holds.1)))) (rw test refl)
      ]

  -- `SetHashByIndex` of a Refs that holds a list and is saved with it, with a valid default
  -- degree, and is not lazy, in a store that has each value under its sum, for a sum without
  -- collisions that is never blank: an index out of range gives `ErrIndexOutOfRange`; for any other either the store
  -- refuses a value, and its error is given, or the Refs holds the list with the new hash at the
  -- index, the store has that list under the new hash of the Refs, each value is under its sum,
  -- and every value of the store is still there.
  pub set_hash_by_index-ChangesAt :
      (r : Refs c) (xs : List c.Sha256) (i : ℤ) (hash : c.Sha256)
      → validate_degree p.degree ≡ none
      → Kept codec p st r xs
      → ChangesAt codec laws st
          (set_index xs i hash)
          (lookup_index xs i)
          (set_hash_by_index codec p st r i hash)
  unfolding set_hash_by_index
  set_hash_by_index-ChangesAt r xs i hash valid (holds, saved, busy) =
      let (b, e, flags, whole) =
        initialize-Hold codec p st (Saved codec p st) (λ d h ys s. s) r xs valid holds in
      rw e (
        set_hash_in-ChangesAt (record { hash = r.hash; body = some b }) b xs i hash
          (ap (λ f. f.lazy) flags ∙ busy) whole saved)
