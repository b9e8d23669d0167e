-- ===== src/Registry/Refs/Holds.antt =====
-- skyobject/registry: the list of hashes that a Refs stands for, loaded or not. A node holds a list if
-- it is loaded with it, or if the store has it under the hash of the node.
use cxo.Prelude.{
  ℕ, zero, suc, ◌<◌, ◌≡◌, ◌≢◌, ◌⊎◌, true, false, List, [], ◌∷◌, ◌++◌, none, some, ok, length,
}
use cxo.Cipher.{Cipher}
use cxo.Cxds.{u32}
use cxo.Data.{is_blank_hash}
use cxo.Registry.Refs.{EncodedNode, EncodedRefs, RefsCodec, Pack, Child, RefsNode, Loaded, Refs}
use cxo.Registry.Refs.Load.{get_node, get_refs, validate_degree}

-- A list in consecutive parts, one for each element.
abbrev pub Parts : {A B : Type 0} → (A → List B → Type 0) → List A → List B → Type 0
Parts R [] xs = xs ≡ []
Parts {B = B} R (a ∷ l) xs = (ys zs : List B) × R a ys × Parts R l zs × (xs ≡ ys ++ zs)

module _ {c : Cipher} (codec : RefsCodec c) (p : Pack c) (st : p.Store) where
  -- A node that the store has, over what its elements stand for.
  abbrev pub StoredNode :
      (List c.Sha256 → List c.Sha256 → Type 0) → c.Sha256 → List c.Sha256 → Type 0
  StoredNode R hash xs =
      (ern : EncodedNode c) × (get_node codec p hash st ≡ ok ern)
      × (ern.length ≡ length xs)
      × R ern.elements xs

  -- The stored elements of a node stand for the list.
  abbrev pub Listed : ℕ → List c.Sha256 → List c.Sha256 → Type 0
  Listed zero es xs = es ≡ xs
  Listed (suc d) es xs =
      Parts (λ hash ys. (is_blank_hash c hash ≡ false) × StoredNode (Listed d) hash ys) es xs

  abbrev pub Stored : ℕ → c.Sha256 → List c.Sha256 → Type 0
  Stored d = StoredNode (Listed d)

  -- What is stored under a hash that is not blank.
  abbrev pub Saved : ℕ → c.Sha256 → List c.Sha256 → Type 0
  Saved d hash xs = (is_blank_hash c hash ≡ false) × Stored d hash xs

  -- A Refs that is saved holds the list, which is not empty.
  abbrev pub StoredRefs : c.Sha256 → List c.Sha256 → Type 0
  StoredRefs hash xs =
      (er : EncodedRefs c) × (get_refs codec p hash st ≡ ok er)
      × (er.length ≡ length xs)
      × (xs ≢ [])
      × (validate_degree er.degree ≡ none)
      × Listed er.depth er.elements xs

  -- What a Refs stands for by its hash, which is blank for the empty list.
  abbrev pub SavedRefs : c.Sha256 → List c.Sha256 → Type 0
  SavedRefs hash xs =
      ((is_blank_hash c hash ≡ true) × (xs ≡ []))
      ⊎ ((is_blank_hash c hash ≡ false) × StoredRefs hash xs)

-- `E` is what is known of the hash of each node below the root: nothing, or that it is saved.
abbrev pub HashOf : Cipher → Type 1
HashOf c = ℕ → c.Sha256 → List c.Sha256 → Type 0

module _ {c : Cipher} (codec : RefsCodec c) (p : Pack c) (st : p.Store) (E : HashOf c) where
  -- A node, over what its children stand for.
  abbrev pub HoldsBy :
      (d : ℕ) → (List (Child c d) → List c.Sha256 → Type 0) → RefsNode c d → List c.Sha256 → Type 0
  HoldsBy d R rn xs =
      E d rn.hash xs
      × (((rn.loaded ≡ true) × (rn.length ≡ length xs) × R rn.elements xs)
          ⊎ ((rn.loaded ≡ false) × Stored codec p st d rn.hash xs))

  -- The children of a node stand for the list.
  abbrev pub Held : (d : ℕ) → List (Child c d) → List c.Sha256 → Type 0
  Held zero es xs = es ≡ xs
  Held (suc d) es xs = Parts (HoldsBy d (Held d)) es xs

  abbrev pub Holds : (d : ℕ) → RefsNode c d → List c.Sha256 → Type 0
  Holds d = HoldsBy d (Held d)

  -- A loaded node holds the list.
  abbrev pub HoldsLoaded : (d : ℕ) → RefsNode c d → List c.Sha256 → Type 0
  HoldsLoaded d rn xs = (rn.loaded ≡ true) × (rn.length ≡ length xs) × Held d rn.elements xs

  -- A Refs that is loaded holds the list, and its numbers fit into what is saved.
  abbrev pub Whole : Loaded c → List c.Sha256 → Type 0
  Whole b xs =
      (validate_degree b.degree ≡ none)
      × (b.depth < u32)
      × (b.node.length < u32)
      × HoldsLoaded b.depth b.node xs

  abbrev pub RefsHold : Refs c → List c.Sha256 → Type 0
  RefsHold r xs = elim r.body [ some b ↦ Whole b xs | none ↦ SavedRefs codec p st r.hash xs ]
