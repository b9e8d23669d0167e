-- ===== src/GoMap/Sum.antt =====
-- Sums over the values of a map, and how an assignment and a deletion change them.
use cxo.Prelude.{ℕ, ◌+◌, ◌≡◌, refl, [], ◌∷◌, none, some, arith}
use mathlib.Core.List.{lookup}
use cxo.GoMap.{GoMap, insert, delete, Distinct}

unfoldable pub sum {ℓ} : {K V : Type ℓ} → (V → ℕ) → GoMap K V → ℕ
sum w [] = 0
sum w ((k, v) ∷ m) = w v + sum w m

module _ {ℓ} {K V : Type ℓ} (dec : Discrete K) (w : V → ℕ) where
  pub sum-insert_new :
      (k : K) (v : V) (m : GoMap K V)
      → lookup dec k m ≡ none
      → sum w (insert dec k v m) ≡ sum w m + w v
  unfolding lookup insert sum
  sum-insert_new k v [] h = omega arith
  sum-insert_new k v ((j, u) ∷ m) h = ground (arith, sum-insert_new k v m)

  pub sum-insert_old :
      (k : K) (v u : V) (m : GoMap K V)
      → lookup dec k m ≡ some u
      → sum w (insert dec k v m) + w u ≡ sum w m + w v
  unfolding lookup insert sum
  sum-insert_old k v u [] h = ground arith
  sum-insert_old k v u ((j, t) ∷ m) h = ground (arith, sum-insert_old k v u m)

  pub delete_absent : (k : K) (m : GoMap K V) → lookup dec k m ≡ none → delete dec k m ≡ m
  unfolding lookup delete
  delete_absent k [] h = refl
  delete_absent k ((j, t) ∷ m) h = ground (arith, delete_absent k m)

  pub sum-delete :
      (k : K) (u : V) (m : GoMap K V)
      → Distinct dec m
      → lookup dec k m ≡ some u
      → sum w (delete dec k m) + w u ≡ sum w m
  unfolding lookup delete sum
  sum-delete k u [] d h = ground arith
  sum-delete k u ((j, t) ∷ m) (fresh, d) h = ground (arith, sum-delete k u m d, delete_absent k m)
