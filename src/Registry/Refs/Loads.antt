-- ===== src/Registry/Refs/Loads.antt =====
-- skyobject/registry: a node that is loaded holds what the store had for it.
use cxo.Prelude.{
  ◌||◌, ℕ, zero, suc, ◌<◌, first_value, ◌≡◌, ◌≢◌, inl, inr, refl, sym, ◌∙◌, subst, true, false,
  List, [], ◌∷◌, Option, none, some, Result, ok, length, Bool-cases, if_true, if_false, arith, ◌==◌,
}
use cxo.Cipher.{Cipher}
use cxo.Cxds.{u32}
use cxo.Data.{is_blank_hash}
use cxo.Registry.Refs.{EncodedRefs, RefsCodec, Flags, Pack, Child, RefsNode, Loaded, Refs}
use cxo.Registry.Refs.Load.{
  load_all, load_branch, load_node_by, load_subtree, load_node, load_node_if_need, load_refs,
  initialize, blank_node, new_branch, flags_of, get_refs, validate_degree,
}
use cxo.Registry.Refs.Holds.{
  Parts, Listed, Stored, Held, Holds, HoldsLoaded, Saved, HashOf, StoredRefs, RefsHold, Whole,
}

-- A loop that succeeds at each element.
load_all-Parts :
    {A B C : Type 0} (R : A → List C → Type 0) (S : B → List C → Type 0) (load : A → Result B)
    (l : List A) (xs : List C)
    → ((a : A) (ys : List C) → R a ys → (b : B) × (load a ≡ ok b) × S b ys)
    → Parts R l xs
    → (bs : List B) × (load_all load l ≡ ok bs) × Parts S bs xs
unfolding load_all
load_all-Parts R S load [] xs step h = ([], refl, h)
load_all-Parts R S load (a ∷ l) xs step (ys, zs, here, rest, e) =
    let (b, f, s) = step a ys here in
    let (bs, g, t) = load_all-Parts R S load l zs step rest in
    (b ∷ bs, rw (f, g) refl, (ys, zs, s, t, e))

module _ {c : Cipher} (codec : RefsCodec c) (p : Pack c) (st : p.Store) (E : HashOf c)
    (known_hash : (d : ℕ) (hash : c.Sha256) (xs : List c.Sha256)
      → Saved codec p st d hash xs
      → E d hash xs)
    (flags : Flags) where
  load_node_by-Holds :
      (d : ℕ) (rn : RefsNode c d) (xs : List c.Sha256)
      → ((es ys : List c.Sha256)
          → Listed codec p st d es ys
          → (cs : List (Child c d)) × (load_subtree codec p d flags st es ≡ ok cs)
            × Held codec p st E d cs ys)
      → Stored codec p st d rn.hash xs
      → (rn' : RefsNode c d) × (load_node_by codec p d (load_subtree codec p d flags st) st rn
          ≡ ok rn')
        × (rn'.hash ≡ rn.hash)
        × HoldsLoaded codec p st E d rn' xs
  load_node_by-Holds d rn xs load (ern, got, len, listed) =
      let (cs, e, held) = load ern.elements xs listed in
      (
        record rn { length = ern.length; loaded = true; elements = cs },
        rw (got, e) refl,
        refl,
        (refl, len, held),
      )

  load_branch-Holds :
      (d : ℕ) (hash : c.Sha256) (ys : List c.Sha256)
      → ((es zs : List c.Sha256)
          → Listed codec p st d es zs
          → (cs : List (Child c d)) × (load_subtree codec p d flags st es ≡ ok cs)
            × Held codec p st E d cs zs)
      → is_blank_hash c hash ≡ false
      → Stored codec p st d hash ys
      → (b : RefsNode c d) × (load_branch codec p d
            (load_node_by codec p d (load_subtree codec p d flags st) st)
            flags
            hash
          ≡ ok b)
        × Holds codec p st E d b ys
  load_branch-Holds d hash ys load known stored =
      let (rn, e, same, held) = load_node_by-Holds d (new_branch codec p d hash) ys load stored in
      elim (Bool-cases (flags.hash_table || flags.entire)) [
        | inl f ↦ (
          rn,
          if_false _ _ known ∙ if_true _ _ f ∙ e,
          (subst (λ k. E d k ys) (sym same) (known_hash d hash ys (known, stored)), inl held),
        )
        | inr f ↦ (
          new_branch codec p d hash,
          if_false _ _ known ∙ if_false _ _ f,
          (known_hash d hash ys (known, stored), inr (refl, stored)),
        )
      ]

  -- `loadSubtree` of stored elements.
  pub load_subtree-Held :
      (d : ℕ) (es xs : List c.Sha256)
      → Listed codec p st d es xs
      → (cs : List (Child c d)) × (load_subtree codec p d flags st es ≡ ok cs)
        × Held codec p st E d cs xs
  unfolding load_subtree
  load_subtree-Held zero es xs h = (es, refl, h)
  load_subtree-Held (suc d) es xs h =
      load_all-Parts _ (Holds codec p st E d) _ es xs
        (λ hash ys s. load_branch-Holds d hash ys (load_subtree-Held d) s.0 s.1) h

  -- A node that holds a list is loaded with it, and its hash stays.
  pub load_node_if_need-Holds :
      (d : ℕ) (rn : RefsNode c d) (xs : List c.Sha256)
      → Holds codec p st E d rn xs
      → (rn' : RefsNode c d) × (load_node_if_need codec p d flags st rn ≡ ok rn')
        × (E d rn'.hash xs × HoldsLoaded codec p st E d rn' xs)
  unfolding load_node_if_need load_node
  load_node_if_need-Holds d rn xs (known, inl h) = (rn, if_true _ _ (h.0), (known, h))
  load_node_if_need-Holds d rn xs (known, inr h) =
      let (rn', e, same, held) = load_node_by-Holds d rn xs (load_subtree-Held d) h.1 in
      (rn', if_false _ _ (h.0) ∙ e, (subst (λ k. E d k xs) (sym same) known, held))

pub length-pos : {A : Type 0} (n : ℕ) (xs : List A) → n ≡ length xs → xs ≢ [] → (n == 0) ≡ false
length-pos n [] e some_there = absurd (some_there refl)
length-pos n (x ∷ xs) e some_there = ground arith

module _ {c : Cipher} (codec : RefsCodec c) (p : Pack c) (st : p.Store) (E : HashOf c)
    (known_hash : (d : ℕ) (hash : c.Sha256) (xs : List c.Sha256)
      → Saved codec p st d hash xs
      → E d hash xs) where
  -- The bounds of what is read.
  stored_bound :
      (hash : c.Sha256) (er : EncodedRefs c)
      → get_refs codec p hash st ≡ ok er
      → (er.depth < u32) × (er.length < u32)
  unfolding get_refs
  stored_bound hash er e =
      let (val, decoded, got) = first_value codec.decode_refs (p.get hash st) e in
      codec.refs_bound val er decoded

  -- `initialize` of a Refs that is saved.
  load_refs-Hold :
      (hash : c.Sha256) (xs : List c.Sha256)
      → StoredRefs codec p st hash xs
      → (b : Loaded c) × (load_refs codec p st hash ≡ ok (record { hash = hash; body = some b }))
        × (b.flags ≡ p.flags)
        × Whole codec p st E b xs
  unfolding load_refs
  load_refs-Hold hash xs (er, got, len, some_there, valid, listed) =
      let (cs, e, held) =
        load_subtree-Held codec p st E known_hash p.flags er.depth er.elements xs listed in
      let full = length-pos er.length xs len some_there in
      let bounds = stored_bound hash er got in
      let b : Loaded c = record {
        depth = er.depth;
        degree = er.degree;
        flags = p.flags;
        node = record (blank_node codec p er.depth) { length = er.length; elements = cs };
      } in
      (b, rw (got, full, valid, e) refl, refl, (valid, bounds.0, bounds.1, (refl, len, held)))

  -- `initialize` gives a Refs that is loaded with the list that it held.
  pub initialize-Hold :
      (r : Refs c) (xs : List c.Sha256)
      → validate_degree p.degree ≡ none
      → RefsHold codec p st E r xs
      → (b : Loaded c) × (initialize codec p st r ≡ ok (record { hash = r.hash; body = some b }))
        × (b.flags ≡ flags_of p r.body)
        × Whole codec p st E b xs
  unfolding initialize
  initialize-Hold r xs valid h = go r.body refl h
    where
      go :
          (o : Option (Loaded c))
          → r.body ≡ o
          → RefsHold codec p st E (record r { body = o }) xs
          → (b : Loaded c) × (initialize codec p st (record r { body = o })
              ≡ ok (record { hash = r.hash; body = some b }))
            × (b.flags ≡ flags_of p o)
            × Whole codec p st E b xs
      go (some b) e h = (b, refl, refl, h)
      go none e (inl (blank, empty)) = (
        record { depth = 0; degree = p.degree; flags = p.flags; node = blank_node codec p 0 },
        rw (initialize, valid) (if_true _ _ blank),
        refl,
        (valid, omega arith, omega arith, (refl, rw empty refl, sym empty)),
      )
      go none e (inr (known, stored)) =
          let (b, f, flags, held) = load_refs-Hold r.hash xs stored in
          (b, rw (initialize, valid) (if_false _ _ known ∙ f), flags, held)
