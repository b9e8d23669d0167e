-- ===== src/Registry/Refs/Visits.antt =====
-- skyobject/registry: the loop over branches, which leads to the branch that has an element of the list.
use cxo.Prelude.{
  ℕ, ◌+◌, ◌-◌, ◌<◌, ◌≤◌, ◌≡◌, inl, inr, refl, sym, ap, ◌∙◌, subst, true, List, [], ◌∷◌, ◌++◌,
  Result, Error, Safe, Safe-bind, length, length-append, Bool-cases, ltb, arith,
}
use mathlib.Core.List.{append-nil, append_assoc}
use cxo.Cipher.{Cipher}
use cxo.Registry.Refs.{RefsCodec, Flags, Pack, RefsNode}
use cxo.Registry.Refs.Load.{load_node_if_need}
use cxo.Registry.Refs.Holds.{Parts, Holds, HoldsLoaded, Saved, HashOf}
use cxo.Registry.Refs.Loads.{load_node_if_need-Holds}
use cxo.Registry.Refs.Find.{in_branch}

pub Parts-step :
    {A B : Type 0} (R S : A → List B → Type 0)
    → ((x : A) (ys : List B) → R x ys → S x ys)
    → (l : List A) (xs : List B) → Parts R l xs
    → Parts S l xs
Parts-step R S step [] xs e = e
Parts-step R S step (x ∷ l) xs (ys, zs, here, rest, e) =
    (ys, zs, step x ys here, Parts-step R S step l zs rest, e)

Parts-append :
    {A B : Type 0} (R : A → List B → Type 0) (l m : List A) (xs ys : List B)
    → Parts R l xs
    → Parts R m ys
    → Parts R (l ++ m) (xs ++ ys)
Parts-append R [] m xs ys e h = rw e h
Parts-append R (x ∷ l) m xs ys (us, vs, here, rest, e) h = (
  us,
  vs ++ ys,
  here,
  Parts-append R l m vs ys rest h,
  ap (λ w. w ++ ys) e ∙ append_assoc us vs ys,
)

-- What a visit of an element does: `Q` says what it gives and makes of the list, and `After` what the
-- nodes stand for afterwards; `F` has the errors with which it may fail.
module _ {c : Cipher} (codec : RefsCodec c) (p : Pack c) (st : p.Store) (E : HashOf c)
    (known_hash : (d : ℕ) (hash : c.Sha256) (xs : List c.Sha256)
      → Saved codec p st d hash xs
      → E d hash xs)
    (flags : Flags) (d : ℕ) {X : Type 0} (Q : List c.Sha256 → ℕ → X → List c.Sha256 → Type 0)
    (After : X → RefsNode c d → List c.Sha256 → Type 0) (F : Error → Type 0) where
  abbrev pub Visited : List c.Sha256 → ℕ → X × List (RefsNode c d) → Type 0
  Visited xs i y = (xs' : List c.Sha256) × Q xs i y.0 xs' × Parts (After y.0) y.1 xs'

  abbrev pub Visits : (RefsNode c d → ℕ → Result (X × List (RefsNode c d))) → Type 0
  Visits inside =
      (rn : RefsNode c d) (xs : List c.Sha256) (i : ℕ)
      → E d rn.hash xs × HoldsLoaded codec p st E d rn xs
      → i < length xs
      → Safe F (Visited xs i) (inside rn i)

  -- A visit to the branch with an index is a visit to the element of the whole list.
  pub in_branch-Visits :
      (inside : RefsNode c d → ℕ → Result (X × List (RefsNode c d))) (l : List (RefsNode c d))
      (xs : List c.Sha256) (i : ℕ)
      → ((ys zs ys' : List c.Sha256) (i : ℕ) (x : X)
          → i < length ys
          → Q ys i x ys'
          → Q (ys ++ zs) i x (ys' ++ zs))
      → ((ys zs zs' : List c.Sha256) (i k : ℕ) (x : X)
          → length ys + k ≡ i
          → Q zs k x zs'
          → Q (ys ++ zs) i x (ys ++ zs'))
      → ((ys ys' zs : List c.Sha256) (i : ℕ) (x : X) (b : RefsNode c d)
          → Q ys i x ys'
          → Holds codec p st E d b zs
          → After x b zs)
      → Visits inside
      → Parts (Holds codec p st E d) l xs
      → i < length xs
      → Safe F (Visited xs i) (in_branch d (load_node_if_need codec p d flags st) inside l i)
  unfolding in_branch
  in_branch-Visits inside [] xs i left right keep visits e lt = absurd (ground (arith, ap length e))
  in_branch-Visits inside (b ∷ []) xs i left right keep visits (ys, zs, holds, rest, e) lt =
      let (b1, loads, here) = load_node_if_need-Holds codec p st E known_hash flags d b ys holds in
      let short : i < length ys = omega (arith, ap length e, length-append ys zs, ap length rest) in
      let test : ltb i b1.length ≡ true = ground (arith, here.1.1) in
      let whole : xs ≡ ys = e ∙ ap (λ w. ys ++ w) rest ∙ append-nil ys in
      rw (loads, test)
        (subst (λ w. Safe F (Visited w i) (inside b1 i)) (sym whole) (visits b1 ys i here short))
  in_branch-Visits inside (b ∷ b2 ∷ l) xs i left right keep visits (ys, zs, holds, rest, e) lt =
      let (b1, loads, here) = load_node_if_need-Holds codec p st E known_hash flags d b ys holds in
      elim (Bool-cases (ltb i b1.length)) [
        | inl test ↦
            let short : i < length ys = ground (arith, here.1.1) in
            rw (loads, test)
              (Safe-bind F (Visited ys i) (Visited xs i) _ _ (visits b1 ys i here short)
                (λ y (ys', q, after). inl (
                  (y.0, y.1 ++ (b2 ∷ l)),
                  refl,
                  (
                    ys' ++ zs,
                    subst (λ w. Q w i y.0 (ys' ++ zs)) (sym e) (left ys zs ys' i y.0 short q),
                    Parts-append _ y.1 (b2 ∷ l) ys' zs after
                        (Parts-step _ _ (λ b ws h. keep ys ys' ws i y.0 b q h) (b2 ∷ l) zs rest),
                  ),
                )))
        | inr test ↦
            let far : length ys ≤ i = ground (arith, here.1.1) in
            let k = i - b1.length in
            rw (loads, test)
              (Safe-bind F (Visited zs k) (Visited xs i) _ _
                (in_branch-Visits inside (b2 ∷ l) zs k left right keep visits rest
                  (omega (arith, ap length e, length-append ys zs, here.1.1)))
                (λ y (zs', q, after). inl (
                  (y.0, b1 ∷ y.1),
                  refl,
                  (
                    ys ++ zs',
                    subst (λ w. Q w i y.0 (ys ++ zs')) (sym e)
                        (right ys zs zs' i k y.0 (omega (arith, here.1.1)) q),
                    (ys, zs', keep zs zs' ys k y.0 b1 q (here.0, inl here.1), after, refl),
                  ),
                )))
      ]
