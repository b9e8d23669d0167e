-- ===== src/Tests/Roots.antt =====
-- data/idxdb/drive.go at concrete inputs: a codec that writes each field as numbers.
use cxo.Prelude.{ℕ, zero, suc, ◌≡◌, refl, [], ◌∷◌, Error, Result, ok, err, none, ℕ_discrete}
use cxo.Prelude.Int.{ℤ, pos, negsuc}
use cxo.GoMap.{GoMap}
use cxo.Cxds.{Val}
use cxo.Data.{DataRoot, validate}
use cxo.IdxDb.Roots.{RootCodec, set_root, get_root}
use cxo.IdxDb.Roots.Trip.{get_root-set_new, get_root-set_there}
use cxo.Tests.ListBolt.{list_bolt, list_bolt-IsReliable}
use cxo.Tests.ListIdxDb.{numbers}
use mathlib.Core.List.{lookup}

abbrev sign : ℤ → ℕ
sign (pos n) = 0
sign (negsuc n) = 1

abbrev size : ℤ → ℕ
size (pos n) = n
size (negsuc n) = n

abbrev signed : ℕ → ℕ → ℤ
signed zero n = pos n
signed (suc k) n = negsuc n

signed-sign : (z : ℤ) → signed (sign z) (size z) ≡ z
signed-sign (pos n) = refl
signed-sign (negsuc n) = refl

abbrev write : DataRoot numbers → Val
write r =
    sign r.create
    ∷ size r.create
    ∷ sign r.access
    ∷ size r.access
    ∷ sign r.time
    ∷ size r.time
    ∷ r.seq
    ∷ r.prev
    ∷ r.hash
    ∷ r.sig
    ∷ []

abbrev read : Val → Result (DataRoot numbers)
read (c1 ∷ c2 ∷ a1 ∷ a2 ∷ t1 ∷ t2 ∷ s ∷ p ∷ h ∷ g ∷ []) = ok (record {
  create = signed c1 c2;
  access = signed a1 a2;
  time = signed t1 t2;
  seq = s;
  prev = p;
  hash = h;
  sig = g;
})
read v = err (Error.foreign 2)

read-write : (r : DataRoot numbers) → read (write r) ≡ ok r
read-write r = rw (signed-sign r.create, signed-sign r.access, signed-sign r.time) refl

abbrev codec : RootCodec numbers
codec = record {
  encode = write;
  decode = read;
  decode-encode = read-write;
  is_empty-encode = λ r. refl;
}

abbrev second : DataRoot numbers
second = record {
  create = pos 0;
  access = pos 0;
  time = pos 20;
  seq = 1;
  prev = 21;
  hash = 22;
  sig = 32;
}

abbrev other_second : DataRoot numbers
other_second = record second { hash = 25; create = pos 3; access = pos 4 }

second_valid : validate numbers second ≡ none
unfolding validate ℕ_discrete
second_valid = refl

abbrev with_other : GoMap ℕ Val
with_other = (1, write other_second) ∷ []

other_there : (list_bolt ℕ_discrete).get with_other 1 ≡ write other_second
unfolding lookup ℕ_discrete
other_there = refl

no_second : (list_bolt ℕ_discrete).get [] 1 ≡ []
unfolding lookup
no_second = refl

get_root-set_new_example :
    ((get_root
        (list_bolt ℕ_discrete)
        codec
        1
        (pos 60)
        (set_root (list_bolt ℕ_discrete) codec second (pos 50) []).1).0
      ≡ (set_root (list_bolt ℕ_discrete) codec second (pos 50) []).0)
    × ((set_root (list_bolt ℕ_discrete) codec second (pos 50) []).0
        ≡ ok (record second { create = pos 50; access = pos 50 }))
get_root-set_new_example =
    get_root-set_new (list_bolt ℕ_discrete) codec second (pos 50) (pos 60) []
      (list_bolt-IsReliable ℕ_discrete) second_valid no_second

get_root-set_there_example :
    ((get_root
        (list_bolt ℕ_discrete)
        codec
        1
        (pos 60)
        (set_root (list_bolt ℕ_discrete) codec second (pos 50) with_other).1).0
      ≡ ok (record other_second { access = pos 50 }))
    × ((set_root (list_bolt ℕ_discrete) codec second (pos 50) with_other).0
        ≡ ok (record second { create = pos 3; access = pos 4 }))
get_root-set_there_example =
    get_root-set_there (list_bolt ℕ_discrete) codec second other_second (pos 50) (pos 60) with_other
      (list_bolt-IsReliable ℕ_discrete) second_valid other_there
