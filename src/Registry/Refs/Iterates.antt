-- ===== src/Registry/Refs/Iterates.antt =====
-- skyobject/registry: `AscendFrom`, its indices and its errors.
use cxo.Prelude.{
  ℕ, zero, suc, ◌+◌, ◌<◌, ◌≡◌, inl, inr, refl, sym, ap, ◌∙◌, subst, true, false, List, [], Option,
  none, some, Error, Result, ok, err, length, arith, ltb, Bool-cases, ◌>>=◌, ◌==◌, if_true,
  if_false, if◌then◌else◌,
}
use cxo.Prelude.Int.{ℤ, pos, negsuc}
use cxo.Prelude.Lists.{drop, length-nil}
use cxo.Cipher.{Cipher}
use cxo.Cxds.{u32}
use cxo.Registry.Refs.{RefsCodec, Pack, Loaded, Refs}
use cxo.Registry.Refs.Load.{validate_degree}
use cxo.Registry.Refs.Holds.{Saved, Whole, HashOf, RefsHold}
use cxo.Registry.Refs.Loads.{initialize-Hold}
use cxo.Registry.Refs.Find.{validate_index, with_node}
use cxo.Registry.Refs.Ascends.{ascend_node-each}
use cxo.Registry.Refs.Each.{each}
use cxo.Registry.Refs.Ascend.{IterateFunc, ascend_node, hide_stop, ascend_in, ascend_from}

-- The index from which an iteration starts. The blank list has index 0 too.
abbrev pub start_index : {A : Type 0} → List A → ℤ → Option ℕ
start_index xs (pos zero) = some 0
start_index xs (pos (suc i)) = if ltb (suc i) (length xs) then some (suc i) else none
start_index xs (negsuc i) = none

module _ {c : Cipher} (codec : RefsCodec c) (p : Pack c) (st : p.Store) (E : HashOf c) {S : Type 0}
    (f : IterateFunc c.Sha256 S) where
  -- What an iteration gives, by the index from which it starts.
  abbrev pub Ascends : List c.Sha256 → S → Option ℕ → Result ((S × Option Error) × Refs c) → Type 0
  Ascends xs s none result = result ≡ err Error.index_out_of_range
  Ascends xs s (some i) result =
      let w = each f i (drop i xs) s in
      (r' : Refs c) × (result ≡ ok ((w.state, hide_stop w.error), r')) × RefsHold codec p st E r' xs

module _ {c : Cipher} (codec : RefsCodec c) (p : Pack c) (st : p.Store) (E : HashOf c)
    (known_hash : (d : ℕ) (hash : c.Sha256) (xs : List c.Sha256)
      → Saved codec p st d hash xs
      → E d hash xs)
    {S : Type 0} (f : IterateFunc c.Sha256 S) where
  -- An iteration that starts at an index of the list.
  walk_in-Ascends :
      (r : Refs c) (b : Loaded c) (xs : List c.Sha256) (i : ℕ) (s : S)
      → ltb i b.node.length ≡ true
      → Whole codec p st E b xs
      → Ascends codec p st E f xs s (some i) (
          validate_index (pos i) b.node.length >>= (λ i.
            ascend_node codec p f b.depth b.flags st b.node 0 i s
            >>= (λ x. ok ((x.0.state, hide_stop x.0.error), with_node codec p r b x.1))))
  walk_in-Ascends r b xs i s test (valid, deep, small, holds) =
      let (rn, e, hash, held) =
        ascend_node-each codec p st E known_hash f b.flags b.depth b.node xs 0 i s holds in
      let index : 0 + i ≡ i = omega arith in
      let walked : ascend_node codec p f b.depth b.flags st b.node 0 i s
          ≡ ok (each f i (drop i xs) s, rn) =
        subst
          (λ j.
            ascend_node codec p f b.depth b.flags st b.node 0 j s ≡ ok (each f j (drop i xs) s, rn))
          index e in
      let small' : rn.length < u32 = omega (arith, small, held.1, holds.1) in
      (with_node codec p r b rn, rw (test, walked) refl, (valid, deep, small', held))

  ascend_in-Ascends :
      (r : Refs c) (b : Loaded c) (xs : List c.Sha256) (from : ℤ) (s : S)
      → Whole codec p st E b xs
      → Ascends codec p st E f xs s (start_index xs from) (ascend_in codec p f st from s r (some b))
  ascend_in-Ascends r b xs (negsuc i) s whole = refl
  ascend_in-Ascends r b xs (pos zero) s (valid, deep, small, holds) =
      elim (Bool-cases (b.node.length == 0)) [
        | inl blank ↦
            let nothing : xs ≡ [] = length-nil xs (ground (arith, holds.1)) in
            (
              record r { body = some b },
              if_true _ _ blank
                  ∙ ap
                      (λ l. ok (
                        ((each f 0 l s).state, hide_stop (each f 0 l s).error),
                        record r { body = some b },
                      ))
                      (sym nothing),
              (valid, deep, small, holds),
            )
        | inr more ↦
            subst (Ascends codec p st E f xs s (some 0)) (sym (if_false _ _ more))
              (walk_in-Ascends r b xs 0 s (ground arith) (valid, deep, small, holds))
      ]
  ascend_in-Ascends r b xs (pos (suc i)) s (valid, deep, small, holds) =
      elim (Bool-cases (ltb (suc i) (length xs))) [
        | inl inside ↦
            let test : ltb (suc i) b.node.length ≡ true = ground (arith, holds.1) in
            subst
              (λ o.
                Ascends codec p st E f xs s o (ascend_in codec p f st (pos (suc i)) s r (some b)))
              (sym (if_true _ _ inside))
              (walk_in-Ascends r b xs (suc i) s test (valid, deep, small, holds))
        | inr outside ↦
            let test : ltb (suc i) b.node.length ≡ false = ground (arith, holds.1) in
            subst
              (λ o.
                Ascends codec p st E f xs s o (ascend_in codec p f st (pos (suc i)) s r (some b)))
              (sym (if_false _ _ outside)) (rw test refl)
      ]

  -- `AscendFrom` of a Refs that holds a list, with what is known of the hashes of its nodes, a valid
  -- default degree, and a function that does not change the Refs: the function is called for each
  -- element from the index on, in order and with the element's index, until it gives an error, which
  -- the call gives back unless it is `ErrStopIteration`; the Refs holds the same list. An index that
  -- is negative, or not below the length and not 0, gives `ErrIndexOutOfRange`.
  pub ascend_from-Ascends :
      (r : Refs c) (xs : List c.Sha256) (from : ℤ) (s : S)
      → validate_degree p.degree ≡ none
      → RefsHold codec p st E r xs
      → Ascends codec p st E f xs s (start_index xs from) (ascend_from codec p f st r from s)
  unfolding ascend_from
  ascend_from-Ascends r xs from s valid holds =
      let (b, e, flags, whole) = initialize-Hold codec p st E known_hash r xs valid holds in
      rw e (ascend_in-Ascends (record { hash = r.hash; body = some b }) b xs from s whole)
