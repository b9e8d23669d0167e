-- ===== src/Registry/Refs/Each.antt =====
-- skyobject/registry: the calls of a function for the elements of a list, until an error.
use cxo.Prelude.{
  ℕ, zero, suc, ◌+◌, ◌≡◌, refl, sym, ap, ◌∙◌, true, false, List, [], ◌∷◌, ◌++◌, Option, none, some,
  Error, length, arith, ltb, if_true, if_false,
}
use cxo.Prelude.Lists.{drop}
use cxo.Registry.Refs.Ascend.{Walk, IterateFunc, pass_more, after_call, ascend_leafs}

module _ {S : Type 0} where
  -- A walk, and another one if there is no error.
  abbrev pub then_by : Option Error → Walk S → (Walk S → Walk S) → Walk S
  then_by (some e) w rest = w
  then_by none w rest = pass_more w.passed (rest w)

  abbrev pub then_walk : Walk S → (Walk S → Walk S) → Walk S
  then_walk w rest = then_by w.error w rest

  then_by-pass_more :
      (o : Option Error) (w : Walk S) (rest rest' : Walk S → Walk S)
      → rest (pass_more 1 w) ≡ rest' w
      → pass_more 1 (then_by o w rest') ≡ then_by o (pass_more 1 w) rest
  then_by-pass_more (some e) w rest rest' same = refl
  then_by-pass_more none w rest rest' same =
      let sum : 1 + (w.passed + (rest' w).passed) ≡ 1 + w.passed + (rest' w).passed = omega arith in
      ap (λ n. record (rest' w) { passed = n }) sum ∙ ap (pass_more (1 + w.passed)) (sym same)

  after_call-then_walk :
      (r : S × Option Error) (g g' : S → Walk S) (rest rest' : Walk S → Walk S)
      → ((s : S) → g' s ≡ then_walk (g s) rest')
      → ((w : Walk S) → rest (pass_more 1 w) ≡ rest' w)
      → after_call r g' ≡ then_walk (after_call r g) rest
  after_call-then_walk (s, some e) g g' rest rest' here same = refl
  after_call-then_walk (s, none) g g' rest rest' here same =
      ap (pass_more 1) (here s) ∙ then_by-pass_more (g s).error (g s) rest rest' (same (g s))

  after_call-passed :
      (r : S × Option Error) (g : S → Walk S) (n : ℕ)
      → ((s : S) → (g s).error ≡ none → (g s).passed ≡ n)
      → (after_call r g).error ≡ none
      → (after_call r g).passed ≡ suc n
  after_call-passed (s, some e) g n here none_there = cc
  after_call-passed (s, none) g n here none_there = omega (arith, here s none_there)

module _ {H S : Type 0} (f : IterateFunc H S) where
  -- The function at each element of a list until an error, from an index on.
  abbrev pub each : ℕ → List H → S → Walk S
  each i [] s = record { state = s; passed = 0; error = none }
  each i (h ∷ l) s = after_call (f i h s) (λ s. each (suc i) l s)

  leafs_from : (es : List H) (shift : ℕ) (s : S) → ascend_leafs f es shift shift s ≡ each shift es s
  unfolding ascend_leafs
  leafs_from [] shift s = refl
  leafs_from (h ∷ es) shift s =
      let here : ltb shift shift ≡ false = ground arith in
      if_false _ _ here ∙ ap (after_call (f shift h s)) (λ j s. leafs_from es (suc shift) s j)

  pub ascend_leafs-each :
      (es : List H) (shift k : ℕ) (s : S)
      → ascend_leafs f es shift (shift + k) s ≡ each (shift + k) (drop k es) s
  unfolding ascend_leafs
  ascend_leafs-each es shift zero s =
      let e : shift + 0 ≡ shift = omega arith in
      ap (λ i. ascend_leafs f es shift i s) e
      ∙ leafs_from es shift s
      ∙ ap (λ i. each i es s) (sym e)
  ascend_leafs-each [] shift (suc k) s = refl
  ascend_leafs-each (h ∷ es) shift (suc k) s =
      let skip : ltb shift (shift + suc k) ≡ true = ground arith in
      let e : suc shift + k ≡ shift + suc k = omega arith in
      if_true _ _ skip
      ∙ ap (λ i. ascend_leafs f es (suc shift) i s) (sym e)
      ∙ ascend_leafs-each es (suc shift) k s
      ∙ ap (λ i. each i (drop k es) s) e

  pub each-append :
      (ys zs : List H) (i : ℕ) (s : S)
      → each i (ys ++ zs) s ≡ then_walk (each i ys s) (λ w. each (i + w.passed) zs w.state)
  each-append [] zs i s =
      let start : i ≡ i + 0 = omega arith in
      let none_passed : (each i zs s).passed ≡ 0 + (each i zs s).passed = omega arith in
      ap (λ n. record (each i zs s) { passed = n }) none_passed
      ∙ ap (λ k. pass_more 0 (each k zs s)) start
  each-append (y ∷ ys) zs i s =
      after_call-then_walk (f i y s) (λ s. each (suc i) ys s) (λ s. each (suc i) (ys ++ zs) s)
        (λ w. each (i + w.passed) zs w.state) (λ w. each (suc i + w.passed) zs w.state)
        (λ s. each-append ys zs (suc i) s)
        (λ w.
          let e : i + (1 + w.passed) ≡ suc i + w.passed = omega arith in
          ap (λ k. each k zs w.state) e)

  pub each_passed :
      (ys : List H) (i : ℕ) (s : S) → (each i ys s).error ≡ none → (each i ys s).passed ≡ length ys
  each_passed [] i s e = refl
  each_passed (y ∷ ys) i s e =
      after_call-passed (f i y s) (λ s. each (suc i) ys s) (length ys)
        (λ s. each_passed ys (suc i) s) e
