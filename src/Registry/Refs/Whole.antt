-- ===== src/Registry/Refs/Whole.antt =====
-- skyobject/registry: `updateHash` of a Refs, and the end of a change, which is at its root.
use cxo.Prelude.{
  Safe, Safe-bind, ℕ, zero, suc, ◌%◌, ◌<◌, ◌≡◌, ◌≢◌, inl, inr, refl, sym, ap, ◌∙◌, subst, true,
  false, not, List, [], ◌∷◌, none, some, Result, ok, first_value, if_neg, if_pos, arith, ltb,
  Bool-cases, ◌>>=◌, if_true,
}
use cxo.Cipher.{Cipher}
use cxo.Cxds.{Val, u32}
use cxo.Data.{is_blank_hash}
use cxo.Registry.Refs.{RefsCodec, Pack, RefsNode, Loaded, Refs}
use cxo.Registry.Refs.Load.{get_refs, validate_degree}
use cxo.Registry.Refs.Holds.{Listed, Saved, StoredRefs, SavedRefs, Held, Whole}
use cxo.Registry.Refs.Loads.{length-pos}
use cxo.Registry.Refs.Change.{child_hashes, encode_whole, update_refs, update_refs_if_need}
use cxo.Registry.Refs.Kept.{
  PackLaws, Refusal, ChangesTo, Sound, Grows, save, sum_not_blank, Held-Grows,
}
use cxo.Registry.Refs.Kept.{SavedRefs-Grows}
use cxo.Registry.Refs.Updates.{mod_small, Held-Listed}

abbrev pub clean : {c : Cipher} → Loaded c → Loaded c
clean b = record b { node = record b.node { changed = false } }

module _ {c : Cipher} (codec : RefsCodec c) (p : Pack c) (laws : PackLaws c p) where
  degree_small : (n : ℕ) → validate_degree n ≡ none → n < u32
  degree_small n valid = elim (Bool-cases (ltb 1024 n)) [
    | inl test ↦ absurd (ground arith)
    | inr test ↦ ground arith
  ]

  -- A value of the store that encodes a Refs which holds a list.
  encoded-StoredRefs :
      (st : p.Store) (b : Loaded c) (xs : List c.Sha256) (hash : c.Sha256)
      → p.get hash st ≡ ok (encode_whole codec p b)
      → xs ≢ []
      → Whole codec p st (Saved codec p st) b xs
      → StoredRefs codec p st hash xs
  unfolding get_refs
  encoded-StoredRefs st b xs hash got some_there (valid, deep, small, holds) =
      let degree = mod_small b.degree (degree_small b.degree valid) in
      let written =
        codec.decode_refs-encode_refs
          (record {
            depth = b.depth % u32;
            degree = b.degree % u32;
            length = b.node.length % u32;
            elements = child_hashes c b.depth b.node.elements;
          })
          (omega arith) (omega arith) (omega arith) in
      (
        record {
          depth = b.depth % u32;
          degree = b.degree % u32;
          length = b.node.length % u32;
          elements = child_hashes c b.depth b.node.elements;
        },
        rw got written,
        mod_small b.node.length small ∙ holds.1,
        some_there,
        ap validate_degree degree ∙ valid,
        subst (λ d. Listed codec p st d (child_hashes c b.depth b.node.elements) xs)
            (sym (mod_small b.depth deep))
            (Held-Listed codec p laws st b.depth b.node.elements xs holds.2),
      )

  -- The value under the hash of a Refs, when it is the sum of a value.
  known_value :
      (st : p.Store) (hash : c.Sha256) (xs : List c.Sha256) (val : Val)
      → Sound p st
      → SavedRefs codec p st hash xs
      → hash ≡ c.sum val
      → p.get hash st ≡ ok val
  unfolding get_refs
  known_value st hash xs val sound (inl (blank, empty)) same =
      let clash : true ≡ false = sym blank ∙ ap (is_blank_hash c) same ∙ sum_not_blank laws val in
      cc
  known_value st hash xs val sound (inr (known, (er, got, len, some_there, valid, listed))) same =
      let (old, decoded, there) = first_value codec.decode_refs (p.get hash st) got in
      there ∙ ap ok (laws.sum-injective old val (sym (sound hash old there) ∙ same))

  nothing-Held : (st : p.Store) (d : ℕ) → Held codec p st (Saved codec p st) d [] []
  nothing-Held st zero = refl
  nothing-Held st (suc d) = refl

  -- `updateHash` of a Refs that holds a list with an element.
  update_some-ChangesTo :
      (st : p.Store) (r : Refs c) (b : Loaded c) (old xs : List c.Sha256)
      → Sound p st
      → SavedRefs codec p st r.hash old
      → xs ≢ []
      → Whole codec p st (Saved codec p st) b xs
      → b.flags.lazy ≡ false
      → ChangesTo codec laws st xs (update_refs codec p st r b)
  update_some-ChangesTo st r b old xs sound saved some_there (valid, deep, small, holds) busy =
      let val = encode_whole codec p b in
      let full = length-pos b.node.length xs holds.1 some_there in
      elim (c.hash_dec r.hash (c.sum val)) [
        | yes same ↦
            let got = known_value st r.hash old val sound saved same in
            inl (
              (st, record { hash = c.sum val; body = some (clean b) }),
              rw full (
                  ap
                    (λ x. x >>= (λ st. ok (st, record { hash = c.sum val; body = some (clean b) })))
                    (if_pos (c.hash_dec r.hash (c.sum val)) same _ _)),
              (
                sound,
                (λ k v e. e),
                (
                  (valid, deep, small, holds),
                  inr (
                    sum_not_blank laws val,
                    encoded-StoredRefs st b xs (c.sum val) (ap (λ h. p.get h st) (sym same) ∙ got)
                        some_there (valid, deep, small, holds),
                  ),
                  busy,
                ),
              ),
            )
        | no other ↦ rw full (
            subst
              (λ x.
                ChangesTo codec laws st xs
                  (x >>= (λ st. ok (st, record { hash = c.sum val; body = some (clean b) }))))
              (sym (if_neg (c.hash_dec r.hash (c.sum val)) other _ _))
              (Safe-bind (Refusal laws) _ _ _ _
                (save laws st val (codec.is_empty-encode_refs _) sound)
                (λ st' (here, sound', grows).
                  let kept : Whole codec p st' (Saved codec p st') b xs = (
                    valid,
                    deep,
                    small,
                    (
                      holds.0,
                      holds.1,
                      Held-Grows codec p st st' grows b.depth b.node.elements xs holds.2,
                    ),
                  ) in
                  inl (
                    (st', record { hash = c.sum val; body = some (clean b) }),
                    refl,
                    (
                      sound',
                      grows,
                      (
                        kept,
                        inr (
                          sum_not_blank laws val,
                          encoded-StoredRefs st' b xs (c.sum val) here some_there kept,
                        ),
                        busy,
                      ),
                    ),
                  ))))
      ]

  -- `updateHash` of a Refs.
  update_refs-ChangesTo :
      (st : p.Store) (r : Refs c) (b : Loaded c) (old xs : List c.Sha256)
      → Sound p st
      → SavedRefs codec p st r.hash old
      → Whole codec p st (Saved codec p st) b xs
      → b.flags.lazy ≡ false
      → ChangesTo codec laws st xs (update_refs codec p st r b)
  update_refs-ChangesTo st r b old [] sound saved (valid, deep, small, holds) busy = inl (
    (
      st,
      record {
        hash = c.blank_hash;
        body = some (record b { node = record b.node { changed = false; elements = [] } });
      },
    ),
    rw (holds.1) refl,
    (
      sound,
      (λ k v e. e),
      (
        (valid, deep, small, (holds.0, holds.1, nothing-Held st b.depth)),
        inl (if_pos (c.hash_dec c.blank_hash c.blank_hash) refl true false, refl),
        busy,
      ),
    ),
  )
  update_refs-ChangesTo st r b old (x ∷ xs) sound saved whole busy =
      update_some-ChangesTo st r b old (x ∷ xs) sound saved (λ e. cc) whole busy

  -- The root of a Refs that has changed below, and the Refs itself.
  pub change_root-ChangesTo :
      (st : p.Store) (r : Refs c) (b : Loaded c) (below : Result (p.Store × RefsNode c b.depth))
      (old xs : List c.Sha256)
      → b.flags.lazy ≡ false
      → SavedRefs codec p st r.hash old
      → Safe
          (Refusal laws)
          (λ y.
            Sound p y.0
            × Grows p st y.0
            × Whole codec p y.0 (Saved codec p y.0) (record b { node = y.1 }) xs)
          below
      → ChangesTo codec laws st xs (
          below
          >>= (λ y. update_refs_if_need codec p (not b.flags.lazy) y.0 r (record b { node = y.1 })))
  change_root-ChangesTo st r b below old xs busy saved changed =
      Safe-bind (Refusal laws) _ _ below _ changed (λ y (sound, grows, whole).
        subst (ChangesTo codec laws st xs) (sym (if_true _ _ (ap not busy)))
          (elim (update_refs-ChangesTo y.0 r (record b { node = y.1 }) old xs sound
            (SavedRefs-Grows codec p st y.0 grows r.hash old saved) whole busy) [
              | inl (z, e, (sound2, grows2, kept)) ↦
                  inl (z, e, (sound2, (λ j v got. grows2 j v (grows j v got)), kept))
              | inr failed ↦ inr failed
            ]))
