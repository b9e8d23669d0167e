-- ===== src/CxdsApi.antt =====
-- data/cxds.go: the interface `data.CXDS`, as the cache uses it, and what it promises. A view shows
-- the object under a key: its references count and its value.
pub mod InMemory
use cxo.Prelude.{ℕ, suc, ◌%◌, ◌≡◌, ite, ◌∷◌, Option, none, some, Error, Result, ok, err}
use cxo.Prelude.Int.{ℤ, pos}
use cxo.Cxds.{Val, u32, next_rc}
use cxo.Cxds.Memory.{MemoryObject}

pub record CxdsApi (K : Type 0) : Type 1 where
  pub dec : Discrete K
  pub Db : Type 0
  pub get : K → ℤ → Db → Result (Val × ℕ) × Db
  pub set : K → Val → ℤ → Db → Result ℕ × Db
  pub inc : K → ℤ → Db → Result ℕ × Db

-- An object whose count has changed.
abbrev pub changed : ℤ → Option MemoryObject → Option MemoryObject
changed inc none = none
changed inc (some mo) = some (record mo { rc = next_rc mo.rc inc })

abbrev pub get_reply : ℤ → Option MemoryObject → Result (Val × ℕ)
get_reply inc none = err Error.not_found
get_reply inc (some mo) = ok (mo.val, next_rc mo.rc inc)

abbrev pub inc_reply : ℤ → Option MemoryObject → Result ℕ
inc_reply inc none = err Error.not_found
inc_reply inc (some mo) = ok (next_rc mo.rc inc)

-- What is there after `Set` by `inc`, a positive number, and what `Set` returns.
abbrev pub after_set : Val → ℕ → Option MemoryObject → MemoryObject
after_set val n none = record { rc = suc n % u32; val = val }
after_set val n (some mo) = record mo { rc = next_rc mo.rc (pos (suc n)) }

pub record IsCxds {K : Type 0} (a : CxdsApi K) : Type 0 where
  pub view : a.Db → K → Option MemoryObject
  pub get_lem : (k : K) (inc : ℤ) (db : a.Db) → (a.get k inc db).0 ≡ get_reply inc (view db k)
  pub view-get :
      (k j : K) (inc : ℤ) (db : a.Db)
      → view (a.get k inc db).1 j ≡ ite (a.dec k j) (changed inc (view db k)) (view db j)
  pub inc_lem : (k : K) (inc : ℤ) (db : a.Db) → (a.inc k inc db).0 ≡ inc_reply inc (view db k)
  pub view-inc :
      (k j : K) (inc : ℤ) (db : a.Db)
      → view (a.inc k inc db).1 j ≡ ite (a.dec k j) (changed inc (view db k)) (view db j)
  pub set_lem :
      (k : K) (b n : ℕ) (bs : Val) (db : a.Db)
      → (a.set k (b ∷ bs) (pos (suc n)) db).0 ≡ ok (after_set (b ∷ bs) n (view db k)).rc
  pub view-set :
      (k j : K) (b n : ℕ) (bs : Val) (db : a.Db)
      → view (a.set k (b ∷ bs) (pos (suc n)) db).1 j
        ≡ ite (a.dec k j) (some (after_set (b ∷ bs) n (view db k))) (view db j)
