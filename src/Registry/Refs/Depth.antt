-- ===== src/Registry/Refs/Depth.antt =====
-- skyobject/registry/refs.go: `pow` and `depthToFit`. An `int` has 64 bits and is taken by its residue,
-- as in two's complement: a residue from 2 ^ 63 on stands for a negative number, and products and
-- sums wrap around. The loop of `pow` has the exponent as fuel, which is enough, since the exponent is
-- halved. The loop of `depthToFit` need not end, where the powers wrap around: it has fuel and gives
-- nothing if the fuel runs out.
use cxo.Prelude.{
  ℕ, zero, suc, ◌+◌, ◌-◌, ◌*◌, ◌/◌, ◌%◌, ◌^◌, ◌<◌, ◌≤◌, ◌≡◌, inl, inr, refl, sym, ap, ◌∙◌, Option,
  none, some, Bool, if◌then◌else◌, if_true, if_false, Bool-cases, ltb, leb, ◌==◌, arith,
}
use native.Mathlib.Nat.{
  pow-zero, pow-succ', mul-one, add-mul, mul_assoc, mul_comm, mod-add-div, mod-mod,
  add-mul-mod_self_left,
}

-- The residues of an `int`, and those from which on it is negative.
abbrev pub int_size : ℕ
int_size = 18446744073709551616

abbrev pub int_limit : ℕ
int_limit = 9223372036854775808

-- `<` of two `int`s
unfoldable pub int_less : ℕ → ℕ → Bool
int_less x y = ltb ((x + int_limit) % int_size) ((y + int_limit) % int_size)

-- the loop of `pow`, for an exponent that is not negative
unfoldable pub pow_loop : ℕ → ℕ → ℕ → ℕ → ℕ
pow_loop zero p a b = p
pow_loop (suc n) p a b =
    if b == 0
    then p
    else pow_loop n (if b % 2 == 0 then p else p * a % int_size) (a * a % int_size) (b / 2)

-- `pow`
unfoldable pub pow : ℕ → ℕ → ℕ
unfolding pow_loop
pow a b = if leb int_limit b then 1 else pow_loop b 1 a b

-- the loop of `depthToFit`
unfoldable pub fit_loop : ℕ → ℕ → ℕ → ℕ → Option ℕ
unfolding pow int_less
fit_loop zero degree start fit = none
fit_loop (suc n) degree start fit =
    if int_less (pow degree start) fit
    then fit_loop n degree (suc start % int_size) fit
    else some start

-- What `depthToFit` returns when its loop has ended.
unfoldable pub found : Option ℕ → Option ℕ
found none = none
found (some start) = some ((start + (int_size - 1)) % int_size)

-- `depthToFit`
unfoldable pub depth_to_fit : ℕ → ℕ → ℕ → ℕ → Option ℕ
unfolding fit_loop int_less found
depth_to_fit n degree start fit =
    if int_less degree fit
    then found (fit_loop n degree (if start == 0 then 1 else start) fit)
    else some 0

module _ (w : ℕ) where
  -- Residues of products.
  mod-mul : (x y : ℕ) → x % w * y % w ≡ x * y % w
  mod-mul x y =
      let split : x % w * y + w * (x / w * y) ≡ x * y =
        ap (λ n. x % w * y + n) (sym (mul_assoc w (x / w) y))
        ∙ sym (add-mul (x % w) (w * (x / w)) y)
        ∙ ap (λ n. n * y) (mod-add-div x w) in
      sym (add-mul-mod_self_left (x % w * y) w (x / w * y)) ∙ ap (λ n. n % w) split

  mul-mod : (p x y : ℕ) → x % w ≡ y % w → p * x % w ≡ p * y % w
  mul-mod p x y e =
      ap (λ n. n % w) (mul_comm p x)
      ∙ sym (mod-mul x p)
      ∙ ap (λ r. r * p % w) e
      ∙ mod-mul y p
      ∙ ap (λ n. n % w) (mul_comm y p)

  mod-pow : (x k : ℕ) → (x % w) ^ k % w ≡ x ^ k % w
  mod-pow x zero = ap (λ n. n % w) (pow-zero (x % w) ∙ sym (pow-zero x))
  mod-pow x (suc k) =
      ap (λ n. n % w) (pow-succ' (x % w) k)
      ∙ mod-mul x ((x % w) ^ k)
      ∙ mul-mod x ((x % w) ^ k) (x ^ k) (mod-pow x k)
      ∙ ap (λ n. n % w) (sym (pow-succ' x k))

square_pow : (a n m : ℕ) → m ≡ n + n → (a * a) ^ n ≡ a ^ m
square_pow a zero m e =
    let z : 0 ≡ m = omega (arith, e) in pow-zero (a * a) ∙ sym (pow-zero a) ∙ ap (λ k. a ^ k) z
square_pow a (suc n) m e =
    let twice : suc (suc (n + n)) ≡ m = omega (arith, e) in
    pow-succ' (a * a) n
    ∙ ap (λ x. a * a * x) (square_pow a n (n + n) refl)
    ∙ mul_assoc a a (a ^ (n + n))
    ∙ ap (λ x. a * x) (sym (pow-succ' a (n + n)))
    ∙ sym (pow-succ' a (suc (n + n)))
    ∙ ap (λ k. a ^ k) twice

-- The power of an exponent that is used up.
pow_done : (p a b : ℕ) → p % int_size ≡ p → b ≡ 0 → p ≡ p * a ^ b % int_size
pow_done p a b small e =
    let one : p ≡ p * a ^ 0 = sym (mul-one p) ∙ ap (λ x. p * x) (sym (pow-zero a)) in
    sym small ∙ ap (λ n. n % int_size) (one ∙ ap (λ k. p * a ^ k) (sym e))

-- Enough fuel gives the power.
pow_loop_lem : (n p a b : ℕ) → p % int_size ≡ p → b ≤ n → pow_loop n p a b ≡ p * a ^ b % int_size
unfolding pow_loop
pow_loop_lem zero p a b small h = pow_done p a b small (omega arith)
pow_loop_lem (suc n) p a b small h = elim (Bool-cases (b == 0)) [
  | inl done ↦ if_true _ _ done ∙ pow_done p a b small (ground arith)
  | inr more ↦ if_false _ _ more ∙ (elim (Bool-cases (b % 2 == 0)) [
    | inl even ↦
        ap (λ x. pow_loop n x (a * a % int_size) (b / 2)) (if_true _ _ even)
        ∙ pow_loop_lem n p (a * a % int_size) (b / 2) small (ground arith)
        ∙ mul-mod int_size p _ _ (mod-pow int_size (a * a) (b / 2))
        ∙ ap (λ x. p * x % int_size) (square_pow a (b / 2) b (ground arith))
    | inr odd ↦
        let above : suc (b / 2 + b / 2) ≡ b = ground arith in
        ap (λ x. pow_loop n x (a * a % int_size) (b / 2)) (if_false _ _ odd)
        ∙ pow_loop_lem n (p * a % int_size) (a * a % int_size) (b / 2) (mod-mod (p * a) int_size)
            (ground arith)
        ∙ mod-mul int_size (p * a) _
        ∙ mul-mod int_size (p * a) _ _ (mod-pow int_size (a * a) (b / 2))
        ∙ ap (λ x. p * a * x % int_size) (square_pow a (b / 2) (b / 2 + b / 2) refl)
        ∙ ap (λ x. x % int_size) (mul_assoc p a (a ^ (b / 2 + b / 2)))
        ∙ ap (λ x. p * x % int_size) (sym (pow-succ' a (b / 2 + b / 2)) ∙ ap (λ k. a ^ k) above)
  ])
]

-- `pow` of an exponent that is not negative is the power, wrapped around to 64 bits.
pub pow-eq : (a b : ℕ) → b < int_limit → pow a b ≡ a ^ b % int_size
unfolding pow
pow-eq a b h =
    if_false {b = leb int_limit b} _ _ (ground arith)
    ∙ pow_loop_lem b 1 a b refl (omega arith)
    ∙ ap (λ n. n % int_size) (omega arith)
