-- ===== src/Registry/Refs/Deletes.antt =====
-- skyobject/registry: `DeleteByIndex` takes an element out of the list, and what is saved is the new list.
use cxo.Prelude.{
  Safe, Safe-bind, ℕ, zero, suc, ◌-◌, ◌<◌, ◌≤◌, ◌≡◌, inl, inr, refl, sym, ap, ◌∙◌, subst, false,
  List, [], ◌∷◌, ◌++◌, none, some, Result, length, arith, ltb, Bool-cases, ◌>>=◌, ◌==◌, if_true,
}
use mathlib.Core.List.{append-nil}
use cxo.Prelude.Int.{ℤ, pos, negsuc}
use cxo.Prelude.Lists.{
  get_elem?, get_elem?-some, get_elem?-none, remove, remove-append, remove-append_right,
  length-remove, length-nil,
}
use cxo.Cipher.{Cipher}
use cxo.Cxds.{u32}
use cxo.Registry.Refs.{RefsCodec, Flags, Pack, RefsNode, Loaded, Refs}
use cxo.Registry.Refs.Load.{validate_degree}
use cxo.Registry.Refs.Holds.{Parts, Stored, Saved, SavedRefs, Held, Holds, HoldsLoaded, Whole}
use cxo.Registry.Refs.Loads.{initialize-Hold}
use cxo.Registry.Refs.Finds.{lookup_index}
use cxo.Registry.Refs.Visits.{Visits, in_branch-Visits}
use cxo.Registry.Refs.Delete.{drop_or_update, delete_element, delete_in, delete_by_index}
use cxo.Registry.Refs.Kept.{PackLaws, Refusal, Kept, ChangesAt, Sound, Grows, Holds-Grows}
use cxo.Registry.Refs.Updates.{update_branch-Saved}
use cxo.Registry.Refs.Whole.{change_root-ChangesTo}

-- The list without the element at an index, which may be negative.
abbrev pub remove_index : {A : Type 0} → List A → ℤ → List A
remove_index xs (pos i) = remove xs i
remove_index xs (negsuc i) = xs

module _ {c : Cipher} (codec : RefsCodec c) (p : Pack c) (laws : PackLaws c p) (st : p.Store)
    (sound : Sound p st) where
  module _ (flags : Flags) (busy : flags.lazy ≡ false) where
    -- What a deletion does to the list, and to the store.
    abbrev Deleted : List c.Sha256 → ℕ → p.Store → List c.Sha256 → Type 0
    Deleted xs i st' xs' = (xs' ≡ remove xs i) × Sound p st' × Grows p st st'

    abbrev HeldAfter : (d : ℕ) → p.Store → RefsNode c d → List c.Sha256 → Type 0
    HeldAfter d st' = Holds codec p st' (Saved codec p st') d

    -- A branch that has lost an element goes, or is saved.
    drop_or_update-Held :
        (st1 : p.Store) (d : ℕ) (old b : RefsNode c d) (xs ys : List c.Sha256)
        → Stored codec p st d old.hash xs
        → b.hash ≡ old.hash
        → length ys ≤ length xs
        → Sound p st1
        → Grows p st st1
        → HoldsLoaded codec p st1 (Saved codec p st1) d b ys
        → Safe
            (Refusal laws)
            (λ y. Sound p y.0 × Grows p st y.0 × Parts (HeldAfter d y.0) y.1 ys)
            (drop_or_update codec p d flags (st1, b))
    drop_or_update-Held st1 d old b xs ys stored same le sound1 grows1 held =
        elim (Bool-cases (b.length == 0)) [
          | inl gone ↦
              let empty : length ys ≡ 0 = ground (arith, held.1) in
              inl ((st1, []), if_true _ _ gone, (sound1, grows1, length-nil ys empty))
          | inr stays ↦ rw stays (
              Safe-bind (Refusal laws) _ _ _ _
                (update_branch-Saved codec p laws st st1 d flags old b xs ys busy stored same le
                  sound1 grows1 held)
                (λ y (sound2, grows2, held2). inl (
                  (y.0, y.1 ∷ []),
                  refl,
                  (sound2, grows2, (ys, [], held2, refl, sym (append-nil ys))),
                )))
        ]

    abbrev DeletedIn : (d : ℕ) → RefsNode c d → List c.Sha256 → ℕ → p.Store × RefsNode c d → Type 0
    DeletedIn d rn xs i y =
        (y.1.hash ≡ rn.hash)
        × Sound p y.0
        × Grows p st y.0
        × HoldsLoaded codec p y.0 (Saved codec p y.0) d y.1 (remove xs i)

    -- An element is taken out, and the nodes below this one that change are saved.
    delete_element-Held :
        (d : ℕ) (rn : RefsNode c d) (xs : List c.Sha256) (i : ℕ)
        → HoldsLoaded codec p st (Saved codec p st) d rn xs
        → i < length xs
        → Safe (Refusal laws) (DeletedIn d rn xs i) (delete_element codec p d flags st rn i)
    unfolding delete_element
    delete_element-Held zero rn xs i (loaded, len, same) lt =
        let (h, found) = get_elem?-some xs i lt in
        inl (
          (st, record rn { length = rn.length - 1; elements = remove rn.elements i }),
          rw (ap (λ l. get_elem? l i) same ∙ found) refl,
          (
            refl,
            sound,
            (λ k v e. e),
            (loaded, omega (arith, len, length-remove xs i lt), ap (λ l. remove l i) same),
          ),
        )
    delete_element-Held (suc d) rn xs i (loaded, len, parts) lt =
        let inside : RefsNode c d → ℕ → Result (p.Store × List (RefsNode c d)) =
          λ b k. delete_element codec p d flags st b k >>= drop_or_update codec p d flags in
        let visits : Visits codec p st (Saved codec p st) (λ d h ys s. s) flags d Deleted
            (HeldAfter d) (Refusal laws) inside =
          λ b ys k holds lt.
            Safe-bind (Refusal laws) _ _ _ _ (delete_element-Held d b ys k holds.1 lt)
              (λ x (hash', sound1, grows1, held).
                elim (drop_or_update-Held x.0 d b x.1 ys (remove ys k) holds.0.1 hash'
                  (omega (arith, length-remove ys k lt)) sound1 grows1 held) [
                    | inl (y, e, (sound2, grows2, parts2)) ↦
                        inl (y, e, (remove ys k, (refl, sound2, grows2), parts2))
                    | inr failed ↦ inr failed
                  ]) in
        Safe-bind (Refusal laws) _ _ _ _
          (in_branch-Visits codec p st (Saved codec p st) (λ d h ys s. s) flags d Deleted
            (HeldAfter d) (Refusal laws) inside rn.elements xs i
            (λ ys zs ys' i x lt q.
              (ap (λ w. w ++ zs) q.0 ∙ sym (remove-append ys zs i lt), q.1, q.2))
            (λ ys zs zs' i k x e q.
              (ap (λ w. ys ++ w) q.0 ∙ sym (remove-append_right ys zs i k e), q.1, q.2))
            (λ ys ys' zs i x b q h. Holds-Grows codec p st x q.2 d b zs h) visits parts lt)
          (λ y (xs', (same, sound', grows), after). inl (
            (y.0, record rn { length = rn.length - 1; elements = y.1 }),
            refl,
            (
              refl,
              sound',
              grows,
              (
                loaded,
                omega (arith, len, length-remove xs i lt),
                subst (λ w. Held codec p y.0 (Saved codec p y.0) (suc d) y.1 w) same after,
              ),
            ),
          ))

  delete_in-ChangesAt :
      (r : Refs c) (b : Loaded c) (xs : List c.Sha256) (i : ℤ)
      → b.flags.lazy ≡ false
      → Whole codec p st (Saved codec p st) b xs
      → SavedRefs codec p st r.hash xs
      → ChangesAt codec laws st
          (remove_index xs i)
          (lookup_index xs i)
          (delete_in codec p st i r (some b))
  delete_in-ChangesAt r b xs (negsuc i) busy whole saved = refl
  delete_in-ChangesAt r b xs (pos i) busy (valid, deep, small, holds) saved =
      elim (Bool-cases (ltb i b.node.length)) [
        | inl test ↦
            let lt : i < length xs = ground (arith, holds.1) in
            let (old, found) = get_elem?-some xs i lt in
            subst
              (λ o.
                ChangesAt codec laws st (remove xs i) o (delete_in codec p st (pos i) r (some b)))
              (sym found)
              (rw test (
                change_root-ChangesTo codec p laws st r b _ xs (remove xs i) busy saved
                  (elim (delete_element-Held b.flags busy b.depth b.node xs i holds lt) [
                    | inr failed ↦ inr failed
                    | inl (y, e, (hash', sound1, grows1, held)) ↦
                        let small1 : y.1.length < u32 =
                          omega (arith, small, held.1, holds.1, length-remove xs i lt) in
                        inl (y, e, (sound1, grows1, (valid, deep, small1, held)))
                  ])))
        | inr test ↦
            subst
              (λ o.
                ChangesAt codec laws st (remove xs i) o (delete_in codec p st (pos i) r (some b)))
              (sym (get_elem?-none xs i (ground (arith, holds.1)))) (rw test refl)
      ]

  -- `DeleteByIndex` of a Refs that holds a list and is saved with it, with a valid default degree,
  -- and is not lazy, in a store that has each value under its sum, for a sum without collisions
  -- that is never blank: an index out of range gives `ErrIndexOutOfRange`; for any other either the store refuses a
  -- value, and its error is given, or the Refs holds the list without the element at the index,
  -- the store has that list under the new hash of the Refs, which is blank if the list is empty,
  -- each value is under its sum, and every value of the store is still there.
  pub delete_by_index-ChangesAt :
      (r : Refs c) (xs : List c.Sha256) (i : ℤ)
      → validate_degree p.degree ≡ none
      → Kept codec p st r xs
      → ChangesAt codec laws st
          (remove_index xs i)
          (lookup_index xs i)
          (delete_by_index codec p st r i)
  unfolding delete_by_index
  delete_by_index-ChangesAt r xs i valid (holds, saved, busy) =
      let (b, e, flags, whole) =
        initialize-Hold codec p st (Saved codec p st) (λ d h ys s. s) r xs valid holds in
      rw e (
        delete_in-ChangesAt (record { hash = r.hash; body = some b }) b xs i
          (ap (λ f. f.lazy) flags ∙ busy) whole saved)
