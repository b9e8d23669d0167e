-- ===== src/Cxds/Memory.antt =====
-- data/cxds/memory.go: the CXDS over a Go map. A key is a `cipher.SHA256`, which is known here only
-- by its equality. The counters are Go `int`s; they count what is in memory and are taken as
-- integers. A method returns the new database beside its result. The lock of each method makes it
-- one step. `Close` drops the map; what a write to the closed database does is not modelled.
pub mod Stat
pub mod IterateDel
use cxo.Prelude.{
  ℕ, zero, suc, ◌%◌, Bool, [], ◌∷◌, Option, none, some, Error, Result, ok, err, panic,
  if◌then◌else◌, ltb, leb, length, is_empty, ◌+◌, ◌-◌,
}
use cxo.Prelude.Int.{ℤ, pos, negsuc, ◌+ℤ◌, ◌-ℤ◌}
use cxo.GoMap.{GoMap, insert, delete}
use cxo.Cxds.{Val, u32}
use mathlib.Core.List.{lookup}

pub record MemoryObject : Type 0 where
  pub rc : ℕ
  pub val : Val

pub record MemoryCxds (K : Type 0) : Type 0 where
  pub kvs : GoMap K MemoryObject
  pub amount_all : ℤ
  pub amount_used : ℤ
  pub volume_all : ℤ
  pub volume_used : ℤ

-- `NewMemoryCXDS`
unfoldable pub new : (K : Type 0) → MemoryCxds K
new K = record {
  kvs = [];
  amount_all = pos 0;
  amount_used = pos 0;
  volume_all = pos 0;
  volume_used = pos 0;
}

-- `data.ErrStopIteration` ends a loop and is no failure.
unfoldable pub hide_stop : Error → Option Error
hide_stop Error.stop_iteration = none
hide_stop e = some e

module _ {K : Type 0} where
  -- `av`: the counters of used objects follow a count that leaves zero or falls to zero.
  unfoldable pub av : ℕ → ℕ → ℕ → MemoryCxds K → MemoryCxds K
  av zero nrc vol m =
      if ltb 0 nrc
      then record m { amount_used = m.amount_used +ℤ pos 1; volume_used = m.volume_used +ℤ pos vol }
      else m
  av (suc rc) zero vol m = record m {
    amount_used = m.amount_used -ℤ pos 1;
    volume_used = m.volume_used -ℤ pos vol;
  }
  av (suc rc) (suc nrc) vol m = m

  -- The counters without an object that had the count `rc` and `vol` bytes.
  unfoldable pub uncount : ℕ → ℕ → MemoryCxds K → MemoryCxds K
  uncount rc vol m = record m {
    amount_used = if ltb 0 rc then m.amount_used -ℤ pos 1 else m.amount_used;
    volume_used = if ltb 0 rc then m.volume_used -ℤ pos vol else m.volume_used;
    amount_all = m.amount_all -ℤ pos 1;
    volume_all = m.volume_all -ℤ pos vol;
  }

  -- `Amount` and `Volume`
  unfoldable pub amount : MemoryCxds K → ℤ × ℤ
  amount m = (m.amount_all, m.amount_used)

  unfoldable pub volume : MemoryCxds K → ℤ × ℤ
  volume m = (m.volume_all, m.volume_used)

  -- `Iterate`, over a callback with a state of its own.
  unfoldable pub iterate_over :
      {S : Type 0}
      → (S → K → ℕ → Val → Option Error × S)
      → S
      → GoMap K MemoryObject
      → Option Error × S
  unfolding hide_stop
  iterate_over f s [] = (none, s)
  iterate_over f s ((k, mo) ∷ l) =
      let (e, s') = f s k mo.rc mo.val in
      elim e [ none ↦ iterate_over f s' l | some er ↦ (hide_stop er, s') ]

  unfoldable pub iterate :
      {S : Type 0} → (S → K → ℕ → Val → Option Error × S) → S → MemoryCxds K → Option Error × S
  unfolding iterate_over
  iterate f s m = iterate_over f s m.kvs

  -- `Close`
  unfoldable pub close : MemoryCxds K → MemoryCxds K
  close m = record m { kvs = [] }

module _ {K : Type 0} (dec : Discrete K) where
  -- The end of `incr`: the new count, and the database that holds it.
  abbrev pub recount : K → MemoryObject → ℕ → ℕ → MemoryCxds K → ℕ × MemoryCxds K
  recount key mo rc nrc m = (
    nrc,
    av rc nrc (length mo.val) (record m { kvs = insert dec key (record mo { rc = nrc }) m.kvs }),
  )

  -- `incr`: `uint32(inc)` keeps the low 32 bits; a decrement stops at zero and an increment wraps
  -- around.
  unfoldable pub incr : K → MemoryObject → ℕ → ℤ → MemoryCxds K → ℕ × MemoryCxds K
  unfolding av
  incr key mo rc (pos zero) m = (rc, m)
  incr key mo rc (negsuc n) m =
      recount key mo rc (if leb rc (suc n % u32) then 0 else rc - suc n % u32) m
  incr key mo rc (pos (suc n)) m = recount key mo rc ((rc + suc n % u32) % u32) m

  -- `Get`
  unfoldable pub get : K → ℤ → MemoryCxds K → Result (Val × ℕ) × MemoryCxds K
  unfolding incr
  get key inc m = elim (lookup dec key m.kvs) [
    | none ↦ (err Error.not_found, m)
    | some mo ↦ let (rc, m') = incr key mo mo.rc inc m in (ok (mo.val, rc), m')
  ]

  -- A new object in the counters and in the map.
  unfoldable pub create : K → Val → ℕ → MemoryCxds K → MemoryCxds K
  create key val rc m = record {
    kvs = insert dec key (record { rc = rc; val = val }) m.kvs;
    amount_all = m.amount_all +ℤ pos 1;
    amount_used = m.amount_used +ℤ pos 1;
    volume_all = m.volume_all +ℤ pos (length val);
    volume_used = m.volume_used +ℤ pos (length val);
  }

  -- The body of `Set` for a value that is not empty.
  unfoldable pub set_value : K → Val → ℕ → MemoryCxds K → Result ℕ × MemoryCxds K
  unfolding incr create
  set_value key val inc m = elim (lookup dec key m.kvs) [
    | none ↦ (ok (inc % u32), create key val (inc % u32) m)
    | some mo ↦ let (rc, m') = incr key mo mo.rc (pos inc) m in (ok rc, m')
  ]

  -- `Set`, which panics unless `inc` is positive.
  unfoldable pub set : K → Val → ℤ → MemoryCxds K → Result ℕ × MemoryCxds K
  unfolding set_value
  set key val (pos (suc n)) m =
      if is_empty val then (err Error.empty_value, m) else set_value key val (suc n) m
  set key val inc m = (panic, m)

  -- `Inc`
  unfoldable pub inc_rc : K → ℤ → MemoryCxds K → Result ℕ × MemoryCxds K
  unfolding incr
  inc_rc key inc m = elim (lookup dec key m.kvs) [
    | none ↦ (err Error.not_found, m)
    | some mo ↦ let (rc, m') = incr key mo mo.rc inc m in (ok rc, m')
  ]

  -- `Del`: the counters change and the map keeps the object.
  unfoldable pub del : K → MemoryCxds K → MemoryCxds K
  unfolding uncount
  del key m = elim (lookup dec key m.kvs) [ none ↦ m | some mo ↦ uncount mo.rc (length mo.val) m ]

  -- One object of `IterateDel` that the callback has chosen to delete.
  unfoldable pub drop_object : K → MemoryObject → MemoryCxds K → MemoryCxds K
  unfolding uncount
  drop_object k mo m = uncount mo.rc (length mo.val) (record m { kvs = delete dec k m.kvs })

  -- `IterateDel`
  unfoldable pub iterate_del_over :
      {S : Type 0}
      → (S → K → ℕ → Val → Bool × Option Error × S)
      → S
      → GoMap K MemoryObject
      → MemoryCxds K
      → Option Error × S × MemoryCxds K
  unfolding hide_stop drop_object
  iterate_del_over f s [] m = (none, s, m)
  iterate_del_over f s ((k, mo) ∷ l) m =
      let (d, e, s') = f s k mo.rc mo.val in
      elim e [
        | none ↦ iterate_del_over f s' l (if d then drop_object k mo m else m)
        | some er ↦ (hide_stop er, s', m)
      ]

  unfoldable pub iterate_del :
      {S : Type 0}
      → (S → K → ℕ → Val → Bool × Option Error × S)
      → S
      → MemoryCxds K
      → Option Error × S × MemoryCxds K
  unfolding iterate_del_over
  iterate_del f s m = iterate_del_over f s m.kvs m
