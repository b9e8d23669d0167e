-- ===== src/Registry/Refs/Kept.antt =====
-- skyobject/registry: what a Refs needs of the store that it is saved to, and what a store that grows
-- keeps of it.
use cxo.Prelude.{
  is_empty, Safe, ◌⊎◌, ℕ, zero, suc, ◌≡◌, ◌≢◌, inl, inr, sym, ap, ◌∙◌, true, false, List, Option,
  none, some, Error, Result, ok, err, first_value, if_neg,
}
use cxo.Cipher.{Cipher}
use cxo.Cxds.{Val}
use cxo.Data.{is_blank_hash}
use cxo.Registry.Refs.{EncodedNode, EncodedRefs, RefsCodec, Pack, Child, RefsNode, Refs}
use cxo.Registry.Refs.Load.{get_node, get_refs, flags_of}
use cxo.Registry.Refs.Holds.{Listed, Stored, Saved, StoredRefs, SavedRefs, Held, Holds, RefsHold}
use cxo.Registry.Refs.Visits.{Parts-step}

-- What a store keeps of a value under its sum, for a sum without collisions. It may refuse a value,
-- with an error that depends on the value only, and it may keep a value that it has.
pub record PackLaws (c : Cipher) (p : Pack c) : Type 1 where
  pub Refuses : Val → Error → Type 0
  pub set_or :
      (v : Val) (st : p.Store)
      → is_empty v ≡ false
      → ((st' : p.Store) × (p.set (c.sum v) v st ≡ ok st'))
        ⊎ ((e : Error) × Refuses v e × (p.set (c.sum v) v st ≡ err e))
  pub get-set :
      (v : Val) (st st' : p.Store)
      → is_empty v ≡ false
      → ((w : Val) → p.get (c.sum v) st ≡ ok w → w ≡ v)
      → p.set (c.sum v) v st ≡ ok st'
      → p.get (c.sum v) st' ≡ ok v
  pub get-set_other :
      (k : c.Sha256) (v : Val) (st st' : p.Store)
      → is_empty v ≡ false
      → p.set (c.sum v) v st ≡ ok st'
      → k ≢ c.sum v
      → p.get k st' ≡ p.get k st
  pub sum-injective : (v w : Val) → c.sum v ≡ c.sum w → v ≡ w
  pub sum_known : (v : Val) → c.sum v ≢ c.blank_hash

module _ {c : Cipher} (p : Pack c) where
  -- Each value is stored under its sum.
  abbrev pub Sound : p.Store → Type 0
  Sound st = (k : c.Sha256) (v : Val) → p.get k st ≡ ok v → k ≡ c.sum v

  abbrev pub Grows : p.Store → p.Store → Type 0
  Grows st st' = (k : c.Sha256) (v : Val) → p.get k st ≡ ok v → p.get k st' ≡ ok v

pub ok-injective : {A : Type 0} (a b : A) → ok a ≡ ok b → a ≡ b
ok-injective a b e = cc

module _ {c : Cipher} {p : Pack c} (laws : PackLaws c p) where
  -- An error with which the store refuses some value.
  abbrev pub Refusal : Error → Type 0
  Refusal e = (v : Val) × laws.Refuses v e

  -- A value is saved under its sum, or refused.
  pub save :
      (st : p.Store) (v : Val)
      → is_empty v ≡ false
      → Sound p st
      → Safe Refusal
          (λ st'. (p.get (c.sum v) st' ≡ ok v) × Sound p st' × Grows p st st')
          (p.set (c.sum v) v st)
  save st v full sound = elim (laws.set_or v st full) [
    | inr (e, refused, failed) ↦ inr (e, (v, refused), failed)
    | inl (st', e) ↦
        let same_value : (w : Val) → p.get (c.sum v) st ≡ ok w → w ≡ v =
          λ w got. sym (laws.sum-injective v w (sound (c.sum v) w got)) in
        let here = laws.get-set v st st' full same_value e in
        inl (
          st',
          e,
          (
            here,
            (λ k w got. elim (c.hash_dec k (c.sum v)) [
              | yes same ↦
                  same
                  ∙ ap c.sum (ok-injective v w (sym here ∙ ap (λ j. p.get j st') (sym same) ∙ got))
              | no other ↦ sound k w (sym (laws.get-set_other k v st st' full e other) ∙ got)
            ]),
            (λ k w got. elim (c.hash_dec k (c.sum v)) [
              | yes same ↦
                  ap (λ j. p.get j st') same
                  ∙ here
                  ∙ ap ok (laws.sum-injective v w (sym same ∙ sound k w got))
              | no other ↦ laws.get-set_other k v st st' full e other ∙ got
            ]),
          ),
        )
  ]

  pub sum_not_blank : (v : Val) → is_blank_hash c (c.sum v) ≡ false
  sum_not_blank v = if_neg (c.hash_dec (c.sum v) c.blank_hash) (laws.sum_known v) true false

module _ {c : Cipher} (codec : RefsCodec c) (p : Pack c) (st st' : p.Store)
    (grows : Grows p st st') where
  get_node-Grows :
      (h : c.Sha256) (n : EncodedNode c)
      → get_node codec p h st ≡ ok n
      → get_node codec p h st' ≡ ok n
  unfolding get_node
  get_node-Grows h n e =
      let (v, decoded, got) = first_value codec.decode_node (p.get h st) e in
      rw (grows h v got) decoded

  get_refs-Grows :
      (h : c.Sha256) (n : EncodedRefs c)
      → get_refs codec p h st ≡ ok n
      → get_refs codec p h st' ≡ ok n
  unfolding get_refs
  get_refs-Grows h n e =
      let (v, decoded, got) = first_value codec.decode_refs (p.get h st) e in
      rw (grows h v got) decoded

  Listed-Grows :
      (d : ℕ) (es xs : List c.Sha256) → Listed codec p st d es xs → Listed codec p st' d es xs
  Listed-Grows zero es xs h = h
  Listed-Grows (suc d) es xs h =
      Parts-step _ _
        (λ hash ys (known, (ern, got, len, listed)).
          (known, (ern, get_node-Grows hash ern got, len, Listed-Grows d ern.elements ys listed)))
        es xs h

  pub Stored-Grows :
      (d : ℕ) (hash : c.Sha256) (xs : List c.Sha256)
      → Stored codec p st d hash xs
      → Stored codec p st' d hash xs
  Stored-Grows d hash xs (ern, got, len, listed) =
      (ern, get_node-Grows hash ern got, len, Listed-Grows d ern.elements xs listed)

  HoldsBy-Grows :
      (d : ℕ) (b : RefsNode c d) (ys : List c.Sha256)
      → ((es : List (Child c d)) (ys : List c.Sha256)
          → Held codec p st (Saved codec p st) d es ys
          → Held codec p st' (Saved codec p st') d es ys)
      → Holds codec p st (Saved codec p st) d b ys
      → Holds codec p st' (Saved codec p st') d b ys
  HoldsBy-Grows d b ys children ((known, saved), inl (loaded, len, held)) =
      ((known, Stored-Grows d b.hash ys saved), inl (loaded, len, children b.elements ys held))
  HoldsBy-Grows d b ys children ((known, saved), inr (unloaded, stored)) =
      ((known, Stored-Grows d b.hash ys saved), inr (unloaded, Stored-Grows d b.hash ys stored))

  -- What a node holds stays.
  pub Held-Grows :
      (d : ℕ) (es : List (Child c d)) (xs : List c.Sha256)
      → Held codec p st (Saved codec p st) d es xs
      → Held codec p st' (Saved codec p st') d es xs
  Held-Grows zero es xs h = h
  Held-Grows (suc d) es xs h = Parts-step _ _ (λ b ys. HoldsBy-Grows d b ys (Held-Grows d)) es xs h

  pub Holds-Grows :
      (d : ℕ) (b : RefsNode c d) (ys : List c.Sha256)
      → Holds codec p st (Saved codec p st) d b ys
      → Holds codec p st' (Saved codec p st') d b ys
  Holds-Grows d b ys h = HoldsBy-Grows d b ys (Held-Grows d) h

  StoredRefs-Grows :
      (hash : c.Sha256) (xs : List c.Sha256)
      → StoredRefs codec p st hash xs
      → StoredRefs codec p st' hash xs
  StoredRefs-Grows hash xs (er, got, len, some_there, valid, listed) = (
    er,
    get_refs-Grows hash er got,
    len,
    some_there,
    valid,
    Listed-Grows er.depth er.elements xs listed,
  )

  pub SavedRefs-Grows :
      (hash : c.Sha256) (xs : List c.Sha256)
      → SavedRefs codec p st hash xs
      → SavedRefs codec p st' hash xs
  SavedRefs-Grows hash xs (inl h) = inl h
  SavedRefs-Grows hash xs (inr (known, stored)) = inr (known, StoredRefs-Grows hash xs stored)

module _ {c : Cipher} (codec : RefsCodec c) (p : Pack c) where
  -- A Refs that is not lazy holds a list and is saved with it.
  abbrev pub Kept : p.Store → Refs c → List c.Sha256 → Type 0
  Kept st r xs =
      RefsHold codec p st (Saved codec p st) r xs
      × SavedRefs codec p st r.hash xs
      × ((flags_of p r.body).lazy ≡ false)

module _ {c : Cipher} (codec : RefsCodec c) {p : Pack c} (laws : PackLaws c p) where
  -- A change with which the Refs holds another list, unless the store refuses a value.
  abbrev pub ChangesTo : p.Store → List c.Sha256 → Result (p.Store × Refs c) → Type 0
  ChangesTo st xs result =
      Safe (Refusal laws) (λ y. Sound p y.0 × Grows p st y.0 × Kept codec p y.0 y.1 xs) result

  -- What a change of a list at an index gives, by the element that is there.
  abbrev pub ChangesAt :
      p.Store → List c.Sha256 → Option c.Sha256 → Result (p.Store × Refs c) → Type 0
  ChangesAt st xs none result = result ≡ err Error.index_out_of_range
  ChangesAt st xs (some old) result = ChangesTo st xs result
