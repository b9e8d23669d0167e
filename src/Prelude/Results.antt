-- ===== src/Prelude/Results.antt =====
-- What a Go function with an `error` result gives back: a value, an error value, or a panic. The
-- errors are those of the packages `data`, `data/cxds`, `skyobject` and of their callers.
use Prim.Native.Nat.{ℕ}
use mathlib.Core.Option.{Option}
use mathlib.Core.Path.{◌≡◌, refl, sym, ap, subst}
use mathlib.Core.Logic.{◌⊎◌, inl, inr}

pub data Error : Type 0 where
  not_found stop_iteration no_such_feed no_such_head invalid_size : Error
  empty_value wrong_value_length : Error
  missing_meta_info missing_version old_version new_version : Error
  unexpected_prev missing_prev empty_hash empty_sig zero_timestamp : Error
  object_is_too_large not_full blank_pub blank_hash blank_sig : Error
  invalid_refs invalid_encoded_refs index_out_of_range refs_iterating invalid_slice_index : Error
  invalid_degree : Error
  -- an error of a library, of the file system or of a callback
  foreign : ℕ → Error

pub data Result {ℓ} (A : Type ℓ) : Type ℓ where
  panic : Result A
  err : Error → Result A
  ok : A → Result A

module _ {ℓ₁ ℓ₂} {X : Type ℓ₁} {Y : Type ℓ₂} where
  infixl 5 ◌>>=◌
  -- A panic and an error end the chain.
  abbrev pub ◌>>=◌ : Result X → (X → Result Y) → Result Y
  panic >>= next = panic
  err failure >>= next = err failure
  ok x >>= next = next x

-- What a method returns beside a new state: its values with an error or nil, or a panic.
pub data Outcome (A : Type 0) : Type 0 where
  returns : A → Option Error → Outcome A
  panics : Outcome A

-- Success, or one of the two failures.
pub Result-cases {ℓ} :
    {A : Type ℓ} (r : Result A)
    → ((x : A) × (r ≡ ok x)) ⊎ (((e : Error) × (r ≡ err e)) ⊎ (r ≡ panic))
Result-cases panic = inr (inr refl)
Result-cases (err e) = inr (inl (e, refl))
Result-cases (ok x) = inl (x, refl)

module _ {ℓ} {X : Type ℓ} {Y : Type ℓ} where
  -- The first value of a chain that ends well.
  pub first_value :
      {y : Y} (next : X → Result Y) (r : Result X)
      → (r >>= next) ≡ ok y
      → (x : X) × (next x ≡ ok y) × (r ≡ ok x)
  first_value next panic e = cc
  first_value next (err failure) e = cc
  first_value next (ok x) e = (x, e, refl)

module _ (F : Error → Type 0) where
  -- A result with a property, or one of certain errors.
  abbrev pub Safe : {A : Type 0} → (A → Type 0) → Result A → Type 0
  Safe {A} G r = ((x : A) × (r ≡ ok x) × G x) ⊎ ((e : Error) × F e × (r ≡ err e))

  pub Safe-bind :
      {X Y : Type 0} (G : X → Type 0) (H : Y → Type 0) (r : Result X) (next : X → Result Y)
      → Safe G r
      → ((x : X) → G x → Safe H (next x))
      → Safe H (r >>= next)
  Safe-bind G H r next (inl (x, e, g)) step = subst (λ s. Safe H (s >>= next)) (sym e) (step x g)
  Safe-bind G H r next (inr (e, f, q)) step = inr (e, f, ap (λ s. s >>= next) q)
