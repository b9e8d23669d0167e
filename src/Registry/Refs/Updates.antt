-- ===== src/Registry/Refs/Updates.antt =====
-- skyobject/registry: `updateHash` of a node and of a Refs saves what it holds.
use cxo.Prelude.{
  Safe, Safe-bind, subst, inr, ℕ, zero, suc, ◌%◌, ◌<◌, ◌≤◌, ◌≡◌, inl, refl, sym, ap, ◌∙◌, false,
  not, List, [], ◌∷◌, ok, length, first_value, if_neg, if_pos, arith, map,
}
use cxo.Cipher.{Cipher}
use cxo.Cxds.{Val, u32}
use cxo.Data.{is_blank_hash}
use cxo.Registry.Refs.{RefsCodec, Flags, Pack, Child, RefsNode}
use cxo.Registry.Refs.Load.{get_node}
use cxo.Registry.Refs.Holds.{Parts, Listed, Stored, Saved, Held, Holds, HoldsLoaded}
use cxo.Registry.Refs.Change.{child_hashes, encode, update_hash, update_hash_if_need}
use cxo.Registry.Refs.Kept.{PackLaws, Refusal, Sound, Grows, save, sum_not_blank, Held-Grows}

pub mod_small : (n : ℕ) → n < u32 → n % u32 ≡ n
mod_small n h = omega arith

-- The parts of a list, when the elements of another list take the elements' place.
Parts-map :
    {A B C : Type 0} (f : A → C) (R : A → List B → Type 0) (S : C → List B → Type 0) (l : List A)
    (xs : List B)
    → ((x : A) (ys : List B) → R x ys → S (f x) ys)
    → Parts R l xs
    → Parts S (map f l) xs
Parts-map f R S [] xs step e = e
Parts-map f R S (x ∷ l) xs step (ys, zs, here, rest, e) =
    (ys, zs, step x ys here, Parts-map f R S l zs step rest, e)

module _ {c : Cipher} (codec : RefsCodec c) (p : Pack c) (laws : PackLaws c p) where
  -- The hashes of the children of a node, which are saved, list what it holds.
  pub Held-Listed :
      (st : p.Store) (d : ℕ) (es : List (Child c d)) (xs : List c.Sha256)
      → Held codec p st (Saved codec p st) d es xs
      → Listed codec p st d (child_hashes c d es) xs
  Held-Listed st zero es xs h = h
  Held-Listed st (suc d) es xs h = Parts-map (λ b. b.hash) _ _ es xs (λ b ys holds. holds.0) h

  -- A value of the store that encodes a node which holds a list.
  encoded-Saved :
      (st : p.Store) (d : ℕ) (rn : RefsNode c d) (xs : List c.Sha256) (hash : c.Sha256)
      → hash ≡ c.sum (encode codec p d rn)
      → p.get hash st ≡ ok (encode codec p d rn)
      → length xs < u32
      → HoldsLoaded codec p st (Saved codec p st) d rn xs
      → Saved codec p st d hash xs
  unfolding get_node
  encoded-Saved st d rn xs hash same got small (loaded, len, held) =
      let written =
        codec.decode_node-encode_node
          (record { length = rn.length % u32; elements = child_hashes c d rn.elements })
          (omega arith) in
      (
        ap (is_blank_hash c) same ∙ sum_not_blank laws (encode codec p d rn),
        (
          record { length = rn.length % u32; elements = child_hashes c d rn.elements },
          rw got written,
          mod_small rn.length (omega (arith, len, small)) ∙ len,
          Held-Listed st d rn.elements xs held,
        ),
      )

  -- `updateHash` of a node that holds a list, when its hash is a hash of the store.
  update_hash-Saved :
      (st : p.Store) (d : ℕ) (rn : RefsNode c d) (xs : List c.Sha256) (old : Val)
      → Sound p st
      → p.get rn.hash st ≡ ok old
      → length xs < u32
      → HoldsLoaded codec p st (Saved codec p st) d rn xs
      → Safe
          (Refusal laws)
          (λ y. Sound p y.0 × Grows p st y.0 × Holds codec p y.0 (Saved codec p y.0) d y.1 xs)
          (update_hash codec p d st rn)
  update_hash-Saved st d rn xs old sound got small holds =
      elim (c.hash_dec (c.sum (encode codec p d rn)) rn.hash) [
        | yes same ↦
            let value : old ≡ encode codec p d rn =
              laws.sum-injective old (encode codec p d rn)
                (sym (sound rn.hash old got) ∙ sym same) in
            inl (
              (st, rn),
              if_pos (c.hash_dec (c.sum (encode codec p d rn)) rn.hash) same _ _,
              (
                sound,
                (λ k v e. e),
                (
                  encoded-Saved st d rn xs rn.hash (sym same) (got ∙ ap ok value) small holds,
                  inl holds,
                ),
              ),
            )
        | no other ↦
            subst
              (Safe (Refusal laws) (λ y.
                Sound p y.0 × Grows p st y.0 × Holds codec p y.0 (Saved codec p y.0) d y.1 xs))
              (sym (if_neg (c.hash_dec (c.sum (encode codec p d rn)) rn.hash) other _ _))
              (Safe-bind (Refusal laws) _ _ _ _
                (save laws st (encode codec p d rn) (codec.is_empty-encode_node _) sound)
                (λ st' (here, sound', grows).
                  let kept : HoldsLoaded codec p st' (Saved codec p st') d rn xs =
                    (holds.0, holds.1, Held-Grows codec p st st' grows d rn.elements xs holds.2) in
                  inl (
                    (st', record rn { hash = c.sum (encode codec p d rn); changed = false }),
                    refl,
                    (
                      sound',
                      grows,
                      (
                        encoded-Saved st' d rn xs (c.sum (encode codec p d rn)) refl here small
                            kept,
                        inl kept,
                      ),
                    ),
                  )))
      ]

  -- A hash of the store has a value, and a node under it a length of four bytes.
  stored_value :
      (st : p.Store) (d : ℕ) (hash : c.Sha256) (xs : List c.Sha256)
      → Stored codec p st d hash xs
      → ((v : Val) × (p.get hash st ≡ ok v)) × (length xs < u32)
  unfolding get_node
  stored_value st d hash xs (ern, got, len, listed) =
      let (v, decoded, there) = first_value codec.decode_node (p.get hash st) got in
      let bound = codec.node_bound v ern decoded in ((v, there), omega (arith, bound, len))

  -- `updateHashIfNeed` of a branch that was saved and has changed since.
  pub update_branch-Saved :
      (st st1 : p.Store) (d : ℕ) (flags : Flags) (old b : RefsNode c d) (xs ys : List c.Sha256)
      → flags.lazy ≡ false
      → Stored codec p st d old.hash xs
      → b.hash ≡ old.hash
      → length ys ≤ length xs
      → Sound p st1
      → Grows p st st1
      → HoldsLoaded codec p st1 (Saved codec p st1) d b ys
      → Safe
          (Refusal laws)
          (λ y. Sound p y.0 × Grows p st y.0 × Holds codec p y.0 (Saved codec p y.0) d y.1 ys)
          (update_hash_if_need codec p d (not flags.lazy) st1 b)
  update_branch-Saved st st1 d flags old b xs ys busy stored same le sound grows held =
      let ((v, there), small) = stored_value st d old.hash xs stored in
      rw busy
        (elim (update_hash-Saved st1 d b ys v sound
          (ap (λ h. p.get h st1) same ∙ grows old.hash v there) (omega (arith, small, le)) held) [
            | inl (y, e, (sound2, grows2, held2)) ↦
                inl (y, e, (sound2, (λ k w got. grows2 k w (grows k w got)), held2))
            | inr failed ↦ inr failed
          ])
