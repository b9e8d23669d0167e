-- ===== src/Cache/Item.antt =====
-- skyobject/cache.go: the configuration and the state of the cache, its items, and `delete`. A key
-- is a `cipher.SHA256`; a channel of a wanter is known by its equality. Statistics, which nothing
-- reads back, are left out, and the time is an argument. The lock of each method makes it one step.
use cxo.Prelude.{
  Outcome, returns, panics, ℕ, zero, ◌+◌, Bool, [], List, Option, none, some, Error, Result, ok,
  err, panic, if◌then◌else◌, length, is_empty, not,
}
use cxo.Prelude.Int.{ℤ, pos, ◌+ℤ◌, ◌-ℤ◌, ltb_ℤ, is_zero}
use cxo.GoMap.{GoMap, insert, delete}
use cxo.Cxds.{Val}
use cxo.CxdsApi.{CxdsApi}

-- `CachePolicy`
pub data CachePolicy : Type 0 where
  lru lfu : CachePolicy

-- The limits that `initCache` works out of the `Config`.
pub record Limits : Type 0 where
  pub enable : Bool
  pub policy : CachePolicy
  pub max_amount : ℕ
  pub max_volume : ℕ
  pub max_item_size : ℕ
  pub max_object_size : ℕ
  -- `amountc` and `volumec`: clean down to these
  pub amount_low : ℕ
  pub volume_low : ℕ

-- `item`, over the wanters' channels. A map that is nil is the empty one.
pub record Item (C : Type 0) : Type 0 where
  pub fwant : GoMap C ℤ
  pub points : ℕ
  pub fc : ℤ
  pub cc : ℤ
  pub rc : ℤ
  pub val : Val

-- `Object`, as it is sent to a wanter.
pub record Object (K : Type 0) : Type 0 where
  pub key : K
  pub val : Val
  pub rc : ℤ
  pub err : Option Error

module _ {C : Type 0} where
  -- `isWanted`
  unfoldable pub is_wanted : Item C → Bool
  is_wanted it = not (is_empty it.fwant)

  -- `isFilling`
  unfoldable pub is_filling : Item C → Bool
  is_filling it = is_empty it.val

  -- `new(item)`
  abbrev pub new_item : Item C
  new_item = record { fwant = []; points = 0; fc = pos 0; cc = pos 0; rc = pos 0; val = [] }

  -- What is left of an item that is kept for its fillers.
  abbrev pub emptied : Item C → Item C
  emptied it = record it { val = []; rc = pos 0; cc = pos 0; points = 0 }

  -- `touch`
  unfoldable pub touch : CachePolicy → ℕ → Item C → Item C
  touch lru now it = record it { points = now }
  touch lfu now it = record it { points = it.points + 1 }

-- `incr`: a cached count stops at zero.
unfoldable pub incr : ℤ → ℤ → ℤ
incr cc inc = if ltb_ℤ (cc +ℤ inc) (pos 0) then pos 0 else cc +ℤ inc

-- The values of a method whose last call may fail.
abbrev pub beside : {A : Type 0} → A → Result (Unit {0}) → Outcome A
beside a (ok _) = returns a none
beside a (err e) = returns a (some e)
beside a panic = panics

abbrev pub forget : {A : Type 0} → Result A → Result (Unit {0})
forget (ok _) = ok tt
forget (err e) = err e
forget panic = panic

module _ {K : Type 0} (a : CxdsApi K) where
  -- The change of a count that the CXDS has not seen yet is sent to it, unless it is zero.
  unfoldable pub sync : K → ℤ → a.Db → Result (Unit {0}) × a.Db
  sync key (pos zero) db = (ok tt, db)
  sync key inc db = let (r, db') = a.inc key inc db in (forget r, db')

module _ {K : Type 0} (a : CxdsApi K) (C : Type 0) where
  pub record Cache : Type 0 where
    pub amount : ℤ
    pub volume : ℤ
    pub is : GoMap K (Item C)
    pub db : a.Db
    -- what was offered to the wanters' channels, the latest last
    pub sent : List (C × Object K)

module _ {K : Type 0} {a : CxdsApi K} {C : Type 0} where
  -- An item is reached by a pointer: what is written to it is in the map.
  unfoldable pub store : K → Item C → Cache a C → Cache a C
  store key it c = record c { is = insert a.dec key it c.is }

  -- The item leaves the cache; it stays there as a filling one while fillers hold it.
  unfoldable pub drop : K → Item C → Cache a C → Cache a C
  drop key it c = record c {
    amount = c.amount -ℤ pos 1;
    volume = c.volume -ℤ pos (length it.val);
    is = if is_zero it.fc then delete a.dec key c.is else insert a.dec key (emptied it) c.is;
  }

  -- `delete`
  abbrev pub dropped : K → Item C → Cache a C → Result (Unit {0}) → Result (Unit {0}) × Cache a C
  dropped key it c (ok _) = (ok tt, drop key it c)
  dropped key it c (err e) = (err e, c)
  dropped key it c panic = (panic, c)

  unfoldable pub delete_item : K → Item C → Cache a C → Result (Unit {0}) × Cache a C
  unfolding sync drop
  delete_item key it c =
      let (r, db) = sync a key (it.cc -ℤ it.rc) c.db in dropped key it (record c { db = db }) r
