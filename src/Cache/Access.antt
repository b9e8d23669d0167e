-- ===== src/Cache/Access.antt =====
-- skyobject/cache.go: `Get`, `Inc` and `Set`, with the helpers for filling items.
use cxo.Prelude.{
  Outcome, returns, panics, ℕ, zero, [], none, some, Error, Result, ok, err, panic, if◌then◌else◌,
}
use cxo.Prelude.Int.{ℤ, pos, ◌-ℤ◌}
use cxo.Cxds.{Val}
use cxo.CxdsApi.{CxdsApi}
use cxo.Cache.Item.{
  Limits, Item, Cache, beside, is_wanted, is_filling, touch, store, delete_item, incr,
}
use cxo.Cache.Clean.{put_filling_item, put_item}
use mathlib.Core.List.{lookup}

-- A call of the CXDS from a method of the cache: its failure is the method's.
abbrev pub or_fail : {A B S : Type 0} → B → Result A × S → (A → S → Outcome B × S) → Outcome B × S
or_fail zero_value (ok x, s) f = f x s
or_fail zero_value (err e, s) f = (returns zero_value (some e), s)
or_fail zero_value (panic, s) f = (panics, s)

-- The hard count that is returned after a change.
abbrev pub hard_rc : {C : Type 0} → ℤ → Item C → ℤ
hard_rc inc it = incr it.cc inc -ℤ it.fc

module _ {K : Type 0} (a : CxdsApi K) where
  -- The value and the count from the CXDS: the value only if the cache is in use.
  unfoldable pub fetch : Limits → K → ℤ → a.Db → Result (Val × ℕ) × a.Db
  fetch c0 key inc db =
      if c0.enable
      then a.get key inc db
      else (let (r, db') = a.inc key inc db in
          elim r [ ok urc ↦ (ok ([], urc), db') | err e ↦ (err e, db') | panic ↦ (panic, db') ])

module _ {K : Type 0} {a : CxdsApi K} {C : Type 0} where
  -- A call of `db()` that changes the CXDS under the cache.
  abbrev pub on_db : {A : Type 0} → Cache a C → Result A × a.Db → Result A × Cache a C
  on_db c (r, db) = (r, record c { db = db })

  -- The values of a method, and what it did last.
  abbrev pub ends : {A : Type 0} → A → Result (Unit {0}) × Cache a C → Outcome A × Cache a C
  ends x (r, c) = (beside x r, c)

  -- The same for a method that does not touch the item.
  unfoldable pub bump_untouched_to : ℤ → K → Item C → Cache a C → Cache a C
  bump_untouched_to (pos zero) key it c =
      (delete_item key (record it { cc = pos 0 }) (store key (record it { cc = pos 0 }) c)).1
  bump_untouched_to cc key it c = store key (record it { cc = cc }) c

  unfoldable pub bump_untouched : ℤ → K → Item C → Cache a C → Cache a C
  unfolding bump_untouched_to
  bump_untouched inc key it c = bump_untouched_to (incr it.cc inc) key it c

module _ {K : Type 0} {a : CxdsApi K} {C : Type 0} (c0 : Limits) (now : ℕ) where
  -- `getFilling`
  unfoldable pub get_filling : K → ℤ → Item C → Cache a C → Outcome (Val × ℤ) × Cache a C
  unfolding put_filling_item
  get_filling key inc it c =
      or_fail ([], pos 0) (on_db c (a.get key inc c.db))
        λ (val, urc) c. ends (val, pos urc -ℤ it.fc) (put_filling_item c0 now key val urc it c)

  -- A cached item gets a count: it leaves the cache at zero, and is touched otherwise.
  unfoldable pub bump_to : ℤ → K → Item C → Cache a C → Cache a C
  bump_to (pos zero) key it c =
      (delete_item key (record it { cc = pos 0 }) (store key (record it { cc = pos 0 }) c)).1
  bump_to cc key it c = store key (touch c0.policy now (record it { cc = cc })) c

  unfoldable pub bump : ℤ → K → Item C → Cache a C → Cache a C
  unfolding bump_to
  bump inc key it c = bump_to (incr it.cc inc) key it c

  -- `get` of an item of the cache.
  unfoldable pub get_item : K → ℤ → Item C → Cache a C → Outcome (Val × ℤ) × Cache a C
  unfolding get_filling bump
  get_item key inc it c =
      if is_wanted it
      then (returns ([], pos 0) (some Error.not_found), c)
      else if is_filling it
      then get_filling key inc it c
      else (returns (it.val, hard_rc inc it) none, bump inc key it c)

  -- `get`, and so `Get`
  unfoldable pub get : K → ℤ → Cache a C → Outcome (Val × ℤ) × Cache a C
  unfolding get_item put_item
  get key inc c = elim (lookup a.dec key c.is) [
    | some it ↦ get_item key inc it c
    | none ↦
        or_fail ([], pos 0) (on_db c (a.get key inc c.db))
          λ (val, urc) c. ends (val, pos urc) (put_item c0 now key val urc c)
  ]

  -- `getNoCache`
  unfoldable pub get_no_cache : K → ℤ → Cache a C → Outcome (Val × ℤ) × Cache a C
  unfolding get_filling bump_untouched
  get_no_cache key inc c = elim (lookup a.dec key c.is) [
    | some it ↦
        if is_wanted it
        then (returns ([], pos 0) (some Error.not_found), c)
        else if is_filling it
        then get_filling key inc it c
        else (returns (it.val, hard_rc inc it) none, bump_untouched inc key it c)
    | none ↦
        or_fail ([], pos 0) (on_db c (a.get key inc c.db))
          λ (val, urc) c. (returns (val, pos urc) none, c)
  ]

  -- `incFilling`
  unfoldable pub inc_filling : K → ℤ → Item C → Cache a C → Outcome ℤ × Cache a C
  unfolding fetch put_filling_item
  inc_filling key inc it c =
      or_fail (pos 0) (on_db c (fetch a c0 key inc c.db))
        λ (val, urc) c. ends (pos urc -ℤ it.fc) (put_filling_item c0 now key val urc it c)

  -- `incItem`
  unfoldable pub inc_item : K → ℤ → Item C → Cache a C → Outcome ℤ × Cache a C
  unfolding inc_filling bump
  inc_item key inc it c =
      if is_wanted it
      then (returns (pos 0) (some Error.not_found), c)
      else if is_filling it
      then inc_filling key inc it c
      else (returns (hard_rc inc it) none, bump inc key it c)

  -- `inc`, and so `Inc`: for a key that is not in the cache the count is put in the cache and is
  -- never assigned to the result, so zero is returned.
  unfoldable pub inc_rc : K → ℤ → Cache a C → Outcome ℤ × Cache a C
  unfolding inc_item fetch put_item
  inc_rc key inc c = elim (lookup a.dec key c.is) [
    | some it ↦ inc_item key inc it c
    | none ↦
        or_fail (pos 0) (on_db c (fetch a c0 key inc c.db))
          λ (val, urc) c. ends (pos 0) (put_item c0 now key val urc c)
  ]
