-- ===== src/Tests/ListRefs.antt =====
-- A Refs over the CXDS in memory, with lists of numbers for hashes: the sum of a value
-- is the value behind a 1, and the blank hash is the empty list.
use cxo.Prelude.{
  ℕ, zero, suc, ◌<◌, ◌≡◌, inl, inr, refl, sym, ap, ◌∙◌, List, [], ◌∷◌, none, Error, Result, ok, err,
  arith, ltb, if◌then◌else◌, if_true, if_false, ◌&&◌, Bool-cases, ℕ_discrete, true, false,
}
use cxo.Cipher.{Cipher}
use cxo.Cxds.{Val, u32}
use cxo.Registry.Refs.{EncodedNode, EncodedRefs, RefsCodec, Pack}
use cxo.Registry.Refs.Kept.{PackLaws}
use cxo.Registry.Refs.CxdsPack.{cxds_pack, cxds_pack-PackLaws}
use cxo.CxdsApi.InMemory.{memory_api, memory_laws}

unfoldable pub list_dec : Discrete (List ℕ)
list_dec [] [] = yes refl
list_dec [] (y ∷ ys) = no (λ e. cc)
list_dec (x ∷ xs) [] = no (λ e. cc)
list_dec (x ∷ xs) (y ∷ ys) = elim (ℕ_discrete x y) [
  | yes e ↦ elim (list_dec xs ys) [ yes f ↦ yes (cc) | no g ↦ no (λ h. g (cc)) ]
  | no g ↦ no (λ h. g (cc))
]

abbrev pub lists : Cipher
lists = record {
  PubKey = ℕ;
  Sha256 = List ℕ;
  Sig = ℕ;
  pub_dec = ℕ_discrete;
  hash_dec = list_dec;
  sig_dec = ℕ_discrete;
  blank_pub = 0;
  blank_hash = [];
  blank_sig = 0;
  sum = λ v. 1 ∷ v;
  verify = λ p s h. none;
}

-- A hash has each number one higher and ends with 0.
abbrev pub write_hash : List ℕ → List ℕ → List ℕ
write_hash [] rest = 0 ∷ rest
write_hash (n ∷ h) rest = suc n ∷ write_hash h rest

abbrev pub write_hashes : List (List ℕ) → List ℕ
write_hashes [] = []
write_hashes (h ∷ l) = write_hash h (write_hashes l)

abbrev pub longer : ℕ → List (List ℕ) → List (List ℕ)
longer n [] = (n ∷ []) ∷ []
longer n (h ∷ l) = (n ∷ h) ∷ l

abbrev pub read_hashes : List ℕ → List (List ℕ)
read_hashes [] = []
read_hashes (zero ∷ v) = [] ∷ read_hashes v
read_hashes (suc n ∷ v) = longer n (read_hashes v)

read_hashes-write_hash : (h v : List ℕ) → read_hashes (write_hash h v) ≡ h ∷ read_hashes v
read_hashes-write_hash [] v = refl
read_hashes-write_hash (n ∷ h) v = ap (longer n) (read_hashes-write_hash h v)

read_hashes-write_hashes : (l : List (List ℕ)) → read_hashes (write_hashes l) ≡ l
read_hashes-write_hashes [] = refl
read_hashes-write_hashes (h ∷ l) =
    read_hashes-write_hash h (write_hashes l) ∙ ap (λ l. h ∷ l) (read_hashes-write_hashes l)

abbrev pub write_node : EncodedNode lists → Val
write_node n = n.length ∷ write_hashes n.elements

abbrev pub read_node : Val → Result (EncodedNode lists)
read_node [] = err (Error.foreign 2)
read_node (n ∷ v) =
    if ltb n u32
    then ok (record { length = n; elements = read_hashes v })
    else err (Error.foreign 3)

abbrev pub write_refs : EncodedRefs lists → Val
write_refs r = r.depth ∷ r.degree ∷ r.length ∷ write_hashes r.elements

abbrev pub read_refs : Val → Result (EncodedRefs lists)
read_refs (depth ∷ degree ∷ n ∷ v) =
    if ltb depth u32 && ltb n u32
    then ok (record { depth = depth; degree = degree; length = n; elements = read_hashes v })
    else err (Error.foreign 3)
read_refs _ = err (Error.foreign 2)

pub read_node-write_node :
    (n : EncodedNode lists) → n.length < u32 → read_node (write_node n) ≡ ok n
read_node-write_node n h =
    let small : ltb n.length u32 ≡ true = ground arith in
    rw (small, read_hashes-write_hashes n.elements) refl

pub read_refs-write_refs :
    (n : EncodedRefs lists)
    → n.depth < u32
    → n.degree < u32
    → n.length < u32
    → read_refs (write_refs n) ≡ ok n
read_refs-write_refs n h g k =
    let deep : ltb n.depth u32 ≡ true = ground arith in
    let small : ltb n.length u32 ≡ true = ground arith in
    rw (deep, small, read_hashes-write_hashes n.elements) refl

ok-same : {A : Type 0} (a b : A) → ok a ≡ ok b → a ≡ b
ok-same a b e = cc

pub read_node-bound : (v : Val) (n : EncodedNode lists) → read_node v ≡ ok n → n.length < u32
read_node-bound [] n e = cc
read_node-bound (k ∷ v) n e = elim (Bool-cases (ltb k u32)) [
  | inl t ↦
      let same = ok-same _ n (sym (if_true _ _ t) ∙ e) in
      let first : k ≡ n.length = ap (λ n. n.length) same in ground (arith, first)
  | inr t ↦ let clash = sym (if_false _ _ t) ∙ e in cc
]

pub read_refs-bound :
    (v : Val) (n : EncodedRefs lists) → read_refs v ≡ ok n → (n.depth < u32) × (n.length < u32)
read_refs-bound [] n e = cc
read_refs-bound (a ∷ []) n e = cc
read_refs-bound (a ∷ b ∷ []) n e = cc
read_refs-bound (a ∷ b ∷ k ∷ v) n e = elim (Bool-cases (ltb a u32 && ltb k u32)) [
  | inl t ↦
      let same = ok-same _ n (sym (if_true _ _ t) ∙ e) in
      let first : a ≡ n.depth = ap (λ n. n.depth) same in
      let third : k ≡ n.length = ap (λ n. n.length) same in
      (ground (arith, first), ground (arith, third))
  | inr t ↦ let clash = sym (if_false _ _ t) ∙ e in cc
]

abbrev pub list_codec : RefsCodec lists
list_codec = record {
  encode_node = write_node;
  decode_node = read_node;
  encode_refs = write_refs;
  decode_refs = read_refs;
  decode_node-encode_node = read_node-write_node;
  node_bound = read_node-bound;
  is_empty-encode_node = λ n. refl;
  is_empty-encode_refs = λ n. refl;
  decode_refs-encode_refs = read_refs-write_refs;
  refs_bound = read_refs-bound;
}

abbrev pub list_pack : Pack lists
list_pack =
    cxds_pack (memory_api list_dec) 1000
      (record { hash_table = false; entire = false; lazy = false }) 2

abbrev pub tail : List ℕ → List ℕ
tail [] = []
tail (n ∷ l) = l

pub list_laws : PackLaws lists list_pack
list_laws =
    cxds_pack-PackLaws (memory_laws list_dec) 1000
      (record { hash_table = false; entire = false; lazy = false }) 2 (λ v w e. ap tail e)
      (λ v e. cc)
