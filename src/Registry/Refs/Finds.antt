-- ===== src/Registry/Refs/Finds.antt =====
-- skyobject/registry: `HashByIndex` finds the element of the list that the Refs holds.
use cxo.Prelude.{
  ℕ, zero, suc, ◌<◌, ◌≡◌, inl, inr, refl, sym, ap, ◌∙◌, subst, List, [], ◌∷◌, ◌++◌, Option, none,
  some, Error, Result, ok, err, length, Bool-cases, ltb, arith,
}
use mathlib.Core.List.{append-nil}
use cxo.Prelude.Int.{ℤ, pos, negsuc}
use cxo.Prelude.Lists.{
  get_elem?, get_elem?-some, get_elem?-none, get_elem?-append, get_elem?-append_right,
}
use cxo.Cipher.{Cipher}
use cxo.Cxds.{u32}
use cxo.Registry.Refs.{RefsCodec, Flags, Pack, RefsNode, Loaded, Refs}
use cxo.Registry.Refs.Load.{validate_degree}
use cxo.Registry.Refs.Holds.{Held, Holds, HoldsLoaded, Whole, Saved, HashOf, RefsHold}
use cxo.Registry.Refs.Loads.{initialize-Hold}
use cxo.Registry.Refs.Visits.{in_branch-Visits}
use cxo.Registry.Refs.Find.{in_place, element_by_index, with_node, hash_in, hash_by_index}

module _ {c : Cipher} (codec : RefsCodec c) (p : Pack c) (st : p.Store) (E : HashOf c)
    (known_hash : (d : ℕ) (hash : c.Sha256) (xs : List c.Sha256)
      → Saved codec p st d hash xs
      → E d hash xs) where
  -- A search gives the element and keeps the list.
  abbrev Found : List c.Sha256 → ℕ → c.Sha256 → List c.Sha256 → Type 0
  Found xs i h xs' = (get_elem? xs i ≡ some h) × (xs' ≡ xs)

  -- `elementByIndex` finds the element, and what it loads stands for the same list.
  pub element_by_index-Found :
      (flags : Flags) (d : ℕ) (rn : RefsNode c d) (xs : List c.Sha256) (i : ℕ)
      → HoldsLoaded codec p st E d rn xs
      → i < length xs
      → (h : c.Sha256) × (rn' : RefsNode c d) × (element_by_index codec p d flags st rn i
          ≡ ok (h, rn'))
        × (get_elem? xs i ≡ some h)
        × (rn'.hash ≡ rn.hash)
        × HoldsLoaded codec p st E d rn' xs
  unfolding element_by_index
  element_by_index-Found flags zero rn xs i (loaded, len, same) lt =
      let (h, e) = get_elem?-some xs i lt in
      (h, rn, rw (ap (λ l. get_elem? l i) same ∙ e) refl, e, refl, (loaded, len, same))
  element_by_index-Found flags (suc d) rn xs i (loaded, len, parts) lt =
      elim (in_branch-Visits codec p st E known_hash flags d Found (λ h. Holds codec p st E d)
        (λ e. ⊥) (λ b k. in_place (element_by_index codec p d flags st b k)) rn.elements xs i
        (λ ys zs ys' i x lt q. (get_elem?-append ys zs i lt ∙ q.0, ap (λ w. w ++ zs) q.1))
        (λ ys zs zs' i k x e q. (get_elem?-append_right ys zs i k e ∙ q.0, ap (λ w. ys ++ w) q.1))
        (λ ys ys' zs i x b q h. h)
        (λ rn xs i holds lt.
          let (h, rn', e, found, hash, held) = element_by_index-Found flags d rn xs i holds.1 lt in
          inl (
            (h, rn' ∷ []),
            rw e refl,
            (
              xs,
              (found, refl),
              (
                xs,
                [],
                (subst (λ k. E d k xs) (sym hash) holds.0, inl held),
                refl,
                sym (append-nil xs),
              ),
            ),
          ))
        parts lt) [
          | inr (e, bad, failed) ↦ absurd bad
          | inl (y, e, (xs', (found, same), after)) ↦ (
            y.0,
            record rn { elements = y.1 },
            rw e refl,
            found,
            refl,
            (loaded, len, subst (λ w. Held codec p st E (suc d) y.1 w) same after),
          )
        ]

-- The element with an index, which may be negative.
abbrev pub lookup_index : {A : Type 0} → List A → ℤ → Option A
lookup_index xs (pos i) = get_elem? xs i
lookup_index xs (negsuc i) = none

module _ {c : Cipher} (codec : RefsCodec c) (p : Pack c) (st : p.Store) (E : HashOf c) where
  -- What `HashByIndex` gives, by the element that the list has there.
  abbrev pub HashAt : List c.Sha256 → Option c.Sha256 → Result (c.Sha256 × Refs c) → Type 0
  HashAt xs none r = r ≡ err Error.index_out_of_range
  HashAt xs (some h) r = (r' : Refs c) × (r ≡ ok (h, r')) × RefsHold codec p st E r' xs

module _ {c : Cipher} (codec : RefsCodec c) (p : Pack c) (st : p.Store) (E : HashOf c)
    (known_hash : (d : ℕ) (hash : c.Sha256) (xs : List c.Sha256)
      → Saved codec p st d hash xs
      → E d hash xs) where
  hash_in-HashAt :
      (r : Refs c) (b : Loaded c) (xs : List c.Sha256) (i : ℤ)
      → Whole codec p st E b xs
      → HashAt codec p st E xs (lookup_index xs i) (hash_in codec p st i r (some b))
  hash_in-HashAt r b xs (negsuc i) whole = refl
  hash_in-HashAt r b xs (pos i) (valid, deep, small, holds) =
      elim (Bool-cases (ltb i b.node.length)) [
        | inl test ↦
            let (h, rn, e, found, hash, held) =
              element_by_index-Found codec p st E known_hash b.flags b.depth b.node xs i holds
                (ground (arith, holds.1)) in
            let small' : rn.length < u32 = omega (arith, small, held.1, holds.1) in
            subst (λ o. HashAt codec p st E xs o (hash_in codec p st (pos i) r (some b)))
              (sym found) (with_node codec p r b rn, rw (test, e) refl, (valid, deep, small', held))
        | inr test ↦
            subst (λ o. HashAt codec p st E xs o (hash_in codec p st (pos i) r (some b)))
              (sym (get_elem?-none xs i (ground (arith, holds.1)))) (rw test refl)
      ]

  -- `HashByIndex` of a Refs that holds a list, with what is known of the hashes of its nodes, and a
  -- default degree that is valid: an index that is negative or not below the length of the list gives
  -- `ErrIndexOutOfRange`; any other gives the element of the list at the index, and the Refs holds the
  -- same list afterwards, however much of it was loaded.
  pub hash_by_index-HashAt :
      (r : Refs c) (xs : List c.Sha256) (i : ℤ)
      → validate_degree p.degree ≡ none
      → RefsHold codec p st E r xs
      → HashAt codec p st E xs (lookup_index xs i) (hash_by_index codec p st r i)
  unfolding hash_by_index
  hash_by_index-HashAt r xs i valid holds =
      let (b, e, flags, whole) = initialize-Hold codec p st E known_hash r xs valid holds in
      rw e (hash_in-HashAt (record { hash = r.hash; body = some b }) b xs i whole)
