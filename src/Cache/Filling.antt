-- ===== src/Cache/Filling.antt =====
-- skyobject/cache.go: `Set` and the methods for fillers, `Want`, `Unwant`, `SetWanted` and `Finc`. A
-- channel that is full loses the object; what is offered to it is recorded.
use cxo.Prelude.{
  Outcome, returns, panics, ℕ, zero, suc, [], ◌∷◌, List, Option, none, some, Error, Result, ok, err,
  panic, if◌then◌else◌, ltb, length, is_empty, ◌++◌, ◌&&◌,
}
use cxo.Prelude.Int.{ℤ, pos, negsuc, ◌+ℤ◌, ◌-ℤ◌, ltb_ℤ, leb_ℤ, is_zero}
use cxo.GoMap.{GoMap, insert, delete}
use cxo.Cxds.{Val}
use cxo.CxdsApi.{CxdsApi}
use cxo.Cache.Item.{Limits, Item, Object, Cache, is_wanted, is_filling, touch, store, new_item}
use cxo.Cache.Clean.{put_filling_item, put_item}
use cxo.Cache.Access.{or_fail, on_db, ends, get_filling, bump, hard_rc, inc_filling, inc_item}
use mathlib.Core.List.{lookup}

-- The sum of the wanters' incs.
unfoldable pub sum_incs : {C : Type 0} → GoMap C ℤ → ℤ
sum_incs [] = pos 0
sum_incs ((gc, inc) ∷ l) = inc +ℤ sum_incs l

-- `sendWanted` to every wanter, in the order of the range.
unfoldable pub offers : {C K : Type 0} → Object K → GoMap C ℤ → List (C × Object K)
offers obj [] = []
offers obj ((gc, inc) ∷ l) = (gc, obj) ∷ offers obj l

-- A map that is not there gives zero, as `it.fwant[gc]` does.
abbrev or_zero : Option ℤ → ℤ
or_zero none = pos 0
or_zero (some n) = n

module _ {K : Type 0} {a : CxdsApi K} {C : Type 0} (dc : Discrete C) (c0 : Limits) (now : ℕ) where
  abbrev pub send : List (C × Object K) → Cache a C → Cache a C
  send l c = record c { sent = c.sent ++ l }

  -- `setWanted`
  unfoldable pub set_wanted : K → Val → ℤ → Item C → Cache a C → Outcome ℤ × Cache a C
  unfolding sum_incs offers put_filling_item
  set_wanted key val inc it c =
      let wincs = sum_incs it.fwant in
      if ltb c0.max_object_size (length val)
      then (
        returns (pos 0) (some Error.object_is_too_large),
        record (send
            (offers
              (record { key = key; val = []; rc = pos 0; err = some Error.object_is_too_large })
              it.fwant)
            c) { is = delete a.dec key c.is },
      )
      else or_fail (pos 0) (on_db c (a.set key val (inc +ℤ wincs) c.db)) λ urc c.
        let rc = pos urc -ℤ (wincs +ℤ it.fc) in
        let it' = record it { fwant = []; fc = it.fc +ℤ wincs } in
        ends rc (
          put_filling_item c0 now key val urc it' (
            store key it'
              (send (offers (record { key = key; val = val; rc = rc; err = none }) it.fwant) c)))

  -- The body of `Set`, for a positive `inc`.
  unfoldable pub set_value : K → Val → ℤ → Cache a C → Outcome ℤ × Cache a C
  unfolding set_wanted inc_filling bump put_item
  set_value key val inc c = elim (lookup a.dec key c.is) [
    | some it ↦
        if is_wanted it
        then set_wanted key val inc it c
        else if is_filling it
        then inc_filling c0 now key inc it c
        else (returns (hard_rc inc it) none, bump c0 now inc key it c)
    | none ↦
        if ltb c0.max_object_size (length val)
        then (returns (pos 0) (some Error.object_is_too_large), c)
        else or_fail (pos 0) (on_db c (a.set key val inc c.db))
            λ urc c. ends (pos urc) (put_item c0 now key val urc c)
  ]

  -- `Set`
  unfoldable pub set : K → Val → ℤ → Cache a C → Outcome ℤ × Cache a C
  unfolding set_value
  set key val inc c = if leb_ℤ inc (pos 0) then (panics, c) else set_value key val inc c

  -- `SetWanted`
  unfoldable pub set_if_wanted : K → Val → Cache a C → Outcome ℤ × Cache a C
  unfolding set_wanted
  set_if_wanted key val c = elim (lookup a.dec key c.is) [
    | none ↦ (returns (pos 0) none, c)
    | some it ↦ if is_wanted it then set_wanted key val (pos 0) it c else (returns (pos 0) none, c)
  ]

  -- `Want` of a filling item: if the CXDS has no value, the item becomes wanted.
  abbrev no_value :
      K → C → ℤ → Item C → Outcome (Val × ℤ) × Cache a C → Outcome (Unit {0}) × Cache a C
  no_value key gc inc it (returns (val, rc) none, c) = (
    returns tt none,
    send ((gc, record { key = key; val = val; rc = rc -ℤ inc; err = none }) ∷ [])
        (elim (lookup a.dec key c.is) [
          | none ↦ c
          | some it' ↦ store key (record it' { fc = it'.fc +ℤ inc }) c
        ]),
  )
  no_value key gc inc it (returns x (some Error.not_found), c) =
      (returns tt none, store key (record it { fwant = (gc, inc) ∷ [] }) c)
  no_value key gc inc it (returns x (some e), c) = (returns tt (some e), c)
  no_value key gc inc it (panics, c) = (panics, c)

  -- `Want` of a key that is not in the cache.
  abbrev want_new : K → C → ℤ → Result (Val × ℕ) × Cache a C → Outcome (Unit {0}) × Cache a C
  want_new key gc inc (ok (val, urc), c) =
      let it = record new_item { fc = inc } in
      ends tt (
        put_filling_item c0 now key val urc it (
          store key it
            (send ((gc, record { key = key; val = val; rc = pos urc -ℤ inc; err = none }) ∷ []) c)))
  want_new key gc inc (err Error.not_found, c) =
      (returns tt none, store key (record new_item { fwant = (gc, inc) ∷ [] }) c)
  want_new key gc inc (err e, c) = (returns tt (some e), c)
  want_new key gc inc (panic, c) = (panics, c)

  -- `Want`
  unfoldable pub want : K → C → ℤ → Cache a C → Outcome (Unit {0}) × Cache a C
  unfolding get_filling put_filling_item
  want key gc inc c = elim (lookup a.dec key c.is) [
    | some it ↦
        if is_wanted it
        then (
          returns tt none,
          store key
              (record it { fwant = insert dc gc (or_zero (lookup dc gc it.fwant) +ℤ inc) it.fwant })
              c,
        )
        else if is_filling it
        then no_value key gc inc it (get_filling c0 now key inc it c)
        else (let it' = record it { fc = it.fc +ℤ inc } in
            (
              returns tt none,
              store key (touch c0.policy now it') (
                  send
                    ((gc, record { key = key; val = it.val; rc = it'.cc -ℤ it'.fc; err = none })
                      ∷ [])
                    c),
            ))
    | none ↦ want_new key gc inc (on_db c (a.get key inc c.db))
  ]

  -- `Unwant`
  unfoldable pub unwant : K → C → Cache a C → Cache a C
  unwant key gc c = elim (lookup a.dec key c.is) [
    | none ↦ c
    | some it ↦
        let fwant = delete dc gc it.fwant in
        if (is_wanted it && is_empty fwant) && (is_zero it.fc && is_empty it.val)
        then record c { is = delete a.dec key c.is }
        else store key (record it { fwant = fwant }) c
  ]

  -- `Finc` with a positive `inc`, which applies.
  unfoldable pub apply_finc : K → Item C → Cache a C → Outcome (Unit {0}) × Cache a C
  apply_finc key it c = elim it.fc [
    | pos (suc n) ↦ (returns tt none, store key it c)
    | negsuc n ↦ (panics, store key it c)
    | pos zero ↦
        if is_wanted it
        then (returns tt none, store key it c)
        else if is_empty it.val
        then (returns tt none, record c { is = delete a.dec key c.is })
        else (returns tt none, store key (touch c0.policy now it) c)
  ]

  abbrev only_error : Outcome ℤ × Cache a C → Outcome (Unit {0}) × Cache a C
  only_error (returns rc e, c) = (returns tt e, c)
  only_error (panics, c) = (panics, c)

  -- `Finc` of an item that fillers hold.
  unfoldable pub finc_item : K → ℤ → Item C → Cache a C → Outcome (Unit {0}) × Cache a C
  unfolding apply_finc inc_item
  finc_item key (pos inc) it c = apply_finc key (record it { fc = it.fc -ℤ pos inc }) c
  finc_item key (negsuc n) it c =
      let it' = record it { fc = it.fc +ℤ negsuc n } in
      if ltb_ℤ it'.fc (pos 0)
      then (panics, store key it' c)
      else only_error (inc_item c0 now key (negsuc n) it' (store key it' c))

  -- `Finc`, which panics if `inc` is zero.
  unfoldable pub finc : K → ℤ → Cache a C → Outcome (Unit {0}) × Cache a C
  unfolding finc_item
  finc key (pos zero) c = (panics, c)
  finc key inc c = elim (lookup a.dec key c.is) [
    | none ↦ (returns tt none, c)
    | some it ↦ if is_zero it.fc then (returns tt none, c) else finc_item key inc it c
  ]
