-- ===== src/Cache/Clean.antt =====
-- skyobject/cache.go: `cleanDown`, which makes room, and the two ways in which an item gets a value.
pub mod Keeps
pub mod Down
use cxo.Prelude.{
  ℕ, zero, suc, ◌+◌, ◌<◌, Bool, true, false, [], ◌∷◌, List, Option, none, some, Result, ok, err,
  panic, if◌then◌else◌, ltb, leb, length, is_empty, not, ◌||◌, ◌&&◌, map,
}
use cxo.Prelude.Int.{ℤ, pos, ◌+ℤ◌, ltb_ℤ, leb_ℤ}
use cxo.GoMap.{GoMap}
use cxo.Cxds.{Val}
use cxo.CxdsApi.{CxdsApi}
use cxo.Cache.Item.{Limits, Item, Cache, is_wanted, is_filling, touch, store, delete_item, new_item}

module _ {K C : Type 0} where
  -- A range over the cache stops cleaning at the first item that is wanted or filling.
  unfoldable pub any_busy : GoMap K (Item C) → Bool
  any_busy [] = false
  any_busy ((k, it) ∷ l) = (is_wanted it || is_filling it) || any_busy l

  -- `sort.Slice` by the points.
  unfoldable pub insert_ranked : K × Item C → List (K × Item C) → List (K × Item C)
  insert_ranked x [] = x ∷ []
  insert_ranked x (y ∷ l) = if leb x.1.points y.1.points then x ∷ y ∷ l else y ∷ insert_ranked x l

  unfoldable pub rank : GoMap K (Item C) → List (K × Item C)
  unfolding insert_ranked
  rank [] = []
  rank (x ∷ l) = insert_ranked x (rank l)

  -- The rank with its pointers; a nil one stands for an item that is gone.
  abbrev pub present : K × Item C → K × Option (Item C)
  present (k, it) = (k, some it)

  -- The part of the rank from the last index on, when the loop by amount has run to its end.
  abbrev pub last_gone : Option K → List (K × Option (Item C))
  last_gone none = []
  last_gone (some k) = (k, none) ∷ []

-- The tests of `putItem` and `putFillingItem`: is the value cached at all?
unfoldable pub is_cacheable : Limits → Val → ℕ → Bool
is_cacheable c0 val rc = (c0.enable && leb (length val) c0.max_item_size) && ltb 0 rc

module _ {K : Type 0} {a : CxdsApi K} {C : Type 0} (c0 : Limits) where
  -- The loop that cleans by amount: what is left of the rank.
  unfoldable pub clean_amount :
      Option K → List (K × Item C) → Cache a C → Result (List (K × Option (Item C))) × Cache a C
  clean_amount last [] c = (ok (last_gone last), c)
  clean_amount last ((key, it) ∷ l) c =
      let (r, c') = delete_item key it c in
      let next : Result (List (K × Option (Item C))) × Cache a C = elim r [
        | ok _ ↦ clean_amount (some key) l c'
        | err e ↦ (err e, c')
        | panic ↦ (panic, c')
      ] in
      if ltb_ℤ c.amount (pos c0.amount_low) then (ok (map present ((key, it) ∷ l)), c) else next

  -- The loop that cleans by volume; a nil pointer panics.
  unfoldable pub clean_volume :
      ℕ → List (K × Option (Item C)) → Cache a C → Result (Unit {0}) × Cache a C
  clean_volume vol [] c = (ok tt, c)
  clean_volume vol ((key, none) ∷ l) c =
      if leb_ℤ (c.volume +ℤ pos vol) (pos c0.volume_low) then (ok tt, c) else (panic, c)
  clean_volume vol ((key, some it) ∷ l) c =
      let (r, c') = delete_item key it c in
      let next : Result (Unit {0}) × Cache a C = elim r [
        | ok _ ↦ clean_volume vol l c'
        | err e ↦ (err e, c')
        | panic ↦ (panic, c')
      ] in
      if leb_ℤ (c.volume +ℤ pos vol) (pos c0.volume_low) then (ok tt, c) else next

  -- Cleaning by volume, if there is still need.
  unfoldable pub then_volume :
      ℕ → Result (List (K × Option (Item C))) × Cache a C → Result (Unit {0}) × Cache a C
  unfolding clean_volume
  then_volume vol (ok l, c) =
      if ltb_ℤ (c.volume +ℤ pos vol) (pos c0.max_volume) then (ok tt, c) else clean_volume vol l c
  then_volume vol (err e, c) = (err e, c)
  then_volume vol (panic, c) = (panic, c)

  unfoldable pub clean_ranked : ℕ → List (K × Item C) → Cache a C → Result (Unit {0}) × Cache a C
  unfolding clean_amount then_volume
  clean_ranked vol l c = then_volume vol (
      if ltb_ℤ (pos c0.max_amount) (c.amount +ℤ pos 1)
      then clean_amount none l c
      else (ok (map present l), c))

  -- `cleanDown`
  unfoldable pub clean_down : ℕ → Cache a C → Result (Unit {0}) × Cache a C
  unfolding any_busy rank clean_ranked
  clean_down vol c = if any_busy c.is then (ok tt, c) else clean_ranked vol (rank c.is) c

  -- The `switch` before a value is put in.
  unfoldable pub make_room : ℕ → Cache a C → Result (Unit {0}) × Cache a C
  unfolding clean_down
  make_room vol c =
      if ltb_ℤ (pos c0.max_amount) (c.amount +ℤ pos 1)
        || ltb_ℤ (pos c0.max_volume) (c.volume +ℤ pos vol)
      then clean_down vol c
      else (ok tt, c)

  -- The item that gets its value, and the counters that follow.
  unfoldable pub fill : ℕ → K → Val → ℕ → Item C → Cache a C → Cache a C
  fill now key val rc it c =
      let c' =
        store key (touch c0.policy now (record it { val = val; rc = pos rc; cc = pos rc })) c in
      record c' { amount = c.amount +ℤ pos 1; volume = c.volume +ℤ pos (length val) }

  abbrev pub filled :
      ℕ → K → Val → ℕ → Item C → Result (Unit {0}) × Cache a C → Result (Unit {0}) × Cache a C
  filled now key val rc it (ok _, c) = (ok tt, fill now key val rc it c)
  filled now key val rc it (err e, c) = (err e, c)
  filled now key val rc it (panic, c) = (panic, c)

  -- `putFillingItem`
  unfoldable pub put_filling_item :
      ℕ → K → Val → ℕ → Item C → Cache a C → Result (Unit {0}) × Cache a C
  unfolding is_cacheable make_room fill
  put_filling_item now key val rc it c =
      if is_cacheable c0 val rc
      then filled now key val rc it (make_room (length val) c)
      else (ok tt, c)

  -- `putItem`
  unfoldable pub put_item : ℕ → K → Val → ℕ → Cache a C → Result (Unit {0}) × Cache a C
  unfolding put_filling_item
  put_item now key val rc c = put_filling_item now key val rc new_item c
