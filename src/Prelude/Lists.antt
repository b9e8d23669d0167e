-- ===== src/Prelude/Lists.antt =====
-- Lists by position, over the native numbers.
use Prim.Native.Nat.{ℕ, zero, suc, ◌+◌, ◌≤◌, ◌<◌}
use mathlib.Core.Path.{◌≡◌, refl, ap}
use mathlib.Core.Option.{Option, none, some}
use mathlib.Core.List.{List, [], ◌∷◌, ◌++◌}
use cxo.Prelude.Tests.{length}
use native.Mathlib.Omega.{arith}

module _ {ℓ} {A : Type ℓ} where
  abbrev pub get_elem? : List A → ℕ → Option A
  get_elem? [] i = none
  get_elem? (x ∷ xs) zero = some x
  get_elem? (x ∷ xs) (suc i) = get_elem? xs i

  abbrev pub drop : ℕ → List A → List A
  drop zero xs = xs
  drop (suc n) [] = []
  drop (suc n) (x ∷ xs) = drop n xs

  -- The list with another element at a position.
  abbrev pub set : List A → ℕ → A → List A
  set [] i y = []
  set (x ∷ xs) zero y = y ∷ xs
  set (x ∷ xs) (suc i) y = x ∷ set xs i y

  pub get_elem?-some : (xs : List A) (i : ℕ) → i < length xs → (x : A) × (get_elem? xs i ≡ some x)
  get_elem?-some [] i h = absurd (omega arith)
  get_elem?-some (x ∷ xs) zero h = (x, refl)
  get_elem?-some (x ∷ xs) (suc i) h = get_elem?-some xs i (omega arith)

  pub get_elem?-none : (xs : List A) (i : ℕ) → length xs ≤ i → get_elem? xs i ≡ none
  get_elem?-none [] i h = refl
  get_elem?-none (x ∷ xs) zero h = absurd (omega arith)
  get_elem?-none (x ∷ xs) (suc i) h = get_elem?-none xs i (omega arith)

  pub get_elem?-append :
      (xs ys : List A) (i : ℕ) → i < length xs → get_elem? (xs ++ ys) i ≡ get_elem? xs i
  get_elem?-append [] ys i h = absurd (omega arith)
  get_elem?-append (x ∷ xs) ys zero h = refl
  get_elem?-append (x ∷ xs) ys (suc i) h = get_elem?-append xs ys i (omega arith)

  pub get_elem?-append_right :
      (xs ys : List A) (i k : ℕ) → length xs + k ≡ i → get_elem? (xs ++ ys) i ≡ get_elem? ys k
  get_elem?-append_right [] ys i k h = let e : i ≡ k = omega arith in ap (get_elem? ys) e
  get_elem?-append_right (x ∷ xs) ys zero k h = absurd (omega arith)
  get_elem?-append_right (x ∷ xs) ys (suc i) k h = get_elem?-append_right xs ys i k (omega arith)

  pub set-append :
      (xs ys : List A) (i : ℕ) (y : A) → i < length xs → set (xs ++ ys) i y ≡ set xs i y ++ ys
  set-append [] ys i y h = absurd (omega arith)
  set-append (x ∷ xs) ys zero y h = refl
  set-append (x ∷ xs) ys (suc i) y h = ap (λ zs. x ∷ zs) (set-append xs ys i y (omega arith))

  pub set-append_right :
      (xs ys : List A) (i k : ℕ) (y : A) → length xs + k ≡ i → set (xs ++ ys) i y ≡ xs ++ set ys k y
  set-append_right [] ys i k y h = let e : i ≡ k = omega arith in ap (λ j. set ys j y) e
  set-append_right (x ∷ xs) ys zero k y h = absurd (omega arith)
  set-append_right (x ∷ xs) ys (suc i) k y h =
      ap (λ zs. x ∷ zs) (set-append_right xs ys i k y (omega arith))

  pub length-set : (xs : List A) (i : ℕ) (y : A) → length (set xs i y) ≡ length xs
  length-set [] i y = refl
  length-set (x ∷ xs) zero y = refl
  length-set (x ∷ xs) (suc i) y = ap suc (length-set xs i y)

  pub drop-append : (n : ℕ) (xs ys : List A) → n ≤ length xs → drop n (xs ++ ys) ≡ drop n xs ++ ys
  drop-append zero xs ys h = refl
  drop-append (suc n) [] ys h = absurd (omega arith)
  drop-append (suc n) (x ∷ xs) ys h = drop-append n xs ys (omega arith)

  pub drop-append_right :
      (n k : ℕ) (xs ys : List A) → length xs + k ≡ n → drop n (xs ++ ys) ≡ drop k ys
  drop-append_right n k [] ys h = let e : n ≡ k = omega arith in ap (λ j. drop j ys) e
  drop-append_right zero k (x ∷ xs) ys h = absurd (omega arith)
  drop-append_right (suc n) k (x ∷ xs) ys h = drop-append_right n k xs ys (omega arith)

  pub drop-all : (n : ℕ) (xs : List A) → length xs ≤ n → drop n xs ≡ []
  drop-all zero [] h = refl
  drop-all zero (x ∷ xs) h = absurd (omega arith)
  drop-all (suc n) [] h = refl
  drop-all (suc n) (x ∷ xs) h = drop-all n xs (omega arith)

  -- The list without the element at a position.
  abbrev pub remove : List A → ℕ → List A
  remove [] i = []
  remove (x ∷ xs) zero = xs
  remove (x ∷ xs) (suc i) = x ∷ remove xs i

  pub remove-append :
      (xs ys : List A) (i : ℕ) → i < length xs → remove (xs ++ ys) i ≡ remove xs i ++ ys
  remove-append [] ys i h = absurd (omega arith)
  remove-append (x ∷ xs) ys zero h = refl
  remove-append (x ∷ xs) ys (suc i) h = ap (λ zs. x ∷ zs) (remove-append xs ys i (omega arith))

  pub remove-append_right :
      (xs ys : List A) (i k : ℕ) → length xs + k ≡ i → remove (xs ++ ys) i ≡ xs ++ remove ys k
  remove-append_right [] ys i k h = let e : i ≡ k = omega arith in ap (remove ys) e
  remove-append_right (x ∷ xs) ys zero k h = absurd (omega arith)
  remove-append_right (x ∷ xs) ys (suc i) k h =
      ap (λ zs. x ∷ zs) (remove-append_right xs ys i k (omega arith))

  pub length-remove : (xs : List A) (i : ℕ) → i < length xs → suc (length (remove xs i)) ≡ length xs
  length-remove [] i h = absurd (omega arith)
  length-remove (x ∷ xs) zero h = refl
  length-remove (x ∷ xs) (suc i) h = ap suc (length-remove xs i (omega arith))

  pub length-drop : (n : ℕ) (xs : List A) → n ≤ length xs → length (drop n xs) + n ≡ length xs
  length-drop zero xs h = omega arith
  length-drop (suc n) [] h = absurd (omega arith)
  length-drop (suc n) (x ∷ xs) h = omega (arith, length-drop n xs (omega arith))

  pub length-nil : (xs : List A) → length xs ≡ 0 → xs ≡ []
  length-nil [] e = refl
  length-nil (x ∷ xs) e = absurd (omega (arith, e))
