-- ===== src/Cxds/Drive.antt =====
-- data/cxds/drive.go: the CXDS over two buckets of BoltDB, one of objects and one of meta
-- information. An object is stored as its references count, four bytes, and its value. The
-- counters stand in memory, so a transaction that is rolled back leaves them as they are.
pub mod Agree
pub mod Refines
pub mod Sequences
pub mod Meta
pub mod Reopen
pub mod Failures
use cxo.Prelude.{
  ℕ, zero, suc, Option, none, some, Error, Result, ok, err, panic, ◌>>=◌, if◌then◌else◌, ltb, ◌==◌,
  length, is_empty,
}
use cxo.Prelude.Int.{ℤ, pos, ◌+ℤ◌, ◌-ℤ◌}
use cxo.Bolt.{Bolt}
use cxo.Cxds.{Val, next_rc}
use cxo.Cxds.Bytes.{get_refs_count, with_refs_count, without_refs_count}

pub record Counters : Type 0 where
  pub amount_all : ℤ
  pub amount_used : ℤ
  pub volume_all : ℤ
  pub volume_used : ℤ

-- `av`
unfoldable pub av : ℕ → ℕ → ℕ → Counters → Counters
av zero nrc vol c =
    if ltb 0 nrc
    then record c { amount_used = c.amount_used +ℤ pos 1; volume_used = c.volume_used +ℤ pos vol }
    else c
av (suc rc) zero vol c = record c {
  amount_used = c.amount_used -ℤ pos 1;
  volume_used = c.volume_used -ℤ pos vol;
}
av (suc rc) (suc nrc) vol c = c

-- `addAll`
unfoldable pub add_all : ℕ → Counters → Counters
add_all vol c = record c {
  amount_all = c.amount_all +ℤ pos 1;
  volume_all = c.volume_all +ℤ pos vol;
}

-- `del`
unfoldable pub uncount : ℕ → ℕ → Counters → Counters
uncount rc vol c = record {
  amount_used = if ltb 0 rc then c.amount_used -ℤ pos 1 else c.amount_used;
  volume_used = if ltb 0 rc then c.volume_used -ℤ pos vol else c.volume_used;
  amount_all = c.amount_all -ℤ pos 1;
  volume_all = c.volume_all -ℤ pos vol;
}

-- A stored object: its references count and its value.
unfoldable pub decode : Val → Result (ℕ × Val)
unfolding get_refs_count without_refs_count
decode got = do rc ← get_refs_count got; val ← without_refs_count got; ok (rc, val)

module _ {K : Type 0} (o : Bolt K) where
  pub record DriveCxds : Type 0 where
    pub objs : o.Bucket
    pub counters : Counters

  -- The result of a step and the state that it leaves.
  abbrev pub Action : Type 0 → Type 0
  Action A = DriveCxds → Result A × DriveCxds

  -- `b.Update`: a failure rolls the bucket back, and the commit itself may fail.
  unfoldable pub commit_or_roll_back :
      {A : Type 0} → DriveCxds → A → DriveCxds → Option Error → Result A × DriveCxds
  commit_or_roll_back d a d' none = (ok a, d')
  commit_or_roll_back d a d' (some e) = (err e, record d' { objs = d.objs })

  unfoldable pub finish : {A : Type 0} → DriveCxds → Result A → DriveCxds → Result A × DriveCxds
  unfolding commit_or_roll_back
  finish d (ok a) d' = commit_or_roll_back d a d' (o.commit d'.objs)
  finish d (err e) d' = (err e, record d' { objs = d.objs })
  finish d panic d' = (panic, record d' { objs = d.objs })

  unfoldable pub update : {A : Type 0} → Action A → Action A
  unfolding finish
  update body d = let (r, d') = body d in finish d r d'

  -- `b.View`
  unfoldable pub view : {A : Type 0} → Action A → Action A
  view body d = let (r, d') = body d in (r, record d' { objs = d.objs })

  -- The choice between the two that `Get` and `Inc` make.
  unfoldable pub in_tx : {A : Type 0} → ℤ → Action A → Action A
  unfolding update view
  in_tx (pos zero) body = view body
  in_tx inc body = update body

  -- `incr`: the object is stored with its new count, and the counters change whether or not the
  -- bucket has taken it.
  abbrev pub put_result : ℕ → Counters → DriveCxds → Result o.Bucket → Result ℕ × DriveCxds
  put_result nrc c d (ok b) = (ok nrc, record { objs = b; counters = c })
  put_result nrc c d (err e) = (err e, record d { counters = c })
  put_result nrc c d panic = (panic, record d { counters = c })

  unfoldable pub store_count : K → Val → ℕ → ℕ → Action ℕ
  store_count key val rc nrc d =
      put_result nrc (if rc == nrc then d.counters else av rc nrc (length val) d.counters) d
        (o.put d.objs key (with_refs_count nrc val))

  unfoldable pub incr : K → Val → ℕ → ℤ → Action ℕ
  unfolding store_count
  incr key val rc (pos zero) d = (ok rc, d)
  incr key val rc inc d = store_count key val rc (next_rc rc inc) d

  -- Beside a count, the value that goes with it.
  abbrev pub beside : {A : Type 0} → A → Result ℕ × DriveCxds → Result (A × ℕ) × DriveCxds
  beside a (r, d) = (do rc ← r; ok (a, rc), d)

  -- An object that was read: what follows, or the panic of the slice expressions.
  abbrev pub on_object : {A : Type 0} → Val → (ℕ → Val → Action A) → Action A
  on_object got f d = elim (decode got) [
    | ok (rc, val) ↦ f rc val d
    | err e ↦ (err e, d)
    | panic ↦ (panic, d)
  ]

  -- `Get`
  unfoldable pub get : K → ℤ → Action (Val × ℕ)
  unfolding in_tx incr
  get key inc = in_tx inc λ d.
      let got = o.get d.objs key in
      if is_empty got
      then (err Error.not_found, d)
      else on_object got (λ rc val d'. beside val (incr key val rc inc d')) d

  -- The transaction of `Set`: a new object gets the count one, whatever `inc` is.
  unfoldable pub set_body : K → Val → ℤ → Action ℕ
  unfolding incr
  set_body key val inc d =
      let got = o.get d.objs key in
      if is_empty got
      then incr key val 0 (pos 1) (record d { counters = add_all (length val) d.counters })
      else on_object got (λ rc old. incr key old rc inc) d

  unfoldable pub set_value : K → Val → ℤ → Action ℕ
  unfolding update set_body
  set_value key val inc = update (set_body key val inc)

  -- `Set`, which panics unless `inc` is positive.
  unfoldable pub set : K → Val → ℤ → Action ℕ
  unfolding set_value
  set key val (pos (suc n)) d =
      if is_empty val then (err Error.empty_value, d) else set_value key val (pos (suc n)) d
  set key val inc d = (panic, d)

  -- The transaction of `Inc` has a blank error result: a failure of `incr` goes to a variable that
  -- the result of the transaction then overwrites, so it is lost, and the new count is returned.
  abbrev pub forget_error : ℕ → Result ℕ × DriveCxds → Result ℕ × DriveCxds
  forget_error nrc (ok n, d) = (ok n, d)
  forget_error nrc (err e, d) = (ok nrc, d)
  forget_error nrc (panic, d) = (panic, d)

  -- `Inc`
  unfoldable pub inc_rc : K → ℤ → Action ℕ
  unfolding in_tx incr
  inc_rc key inc = in_tx inc λ d.
      let got = o.get d.objs key in
      if is_empty got
      then (err Error.not_found, d)
      else on_object got (λ rc val d'. forget_error (next_rc rc inc) (incr key val rc inc d')) d

  -- `Del`
  abbrev deleted : Val → DriveCxds → Result o.Bucket → Result (Unit {0}) × DriveCxds
  deleted got d (ok b) =
      on_object got
        (λ rc val d'. (ok tt, record d' { counters = uncount rc (length val) d'.counters }))
        (record d { objs = b })
  deleted got d (err e) = (err e, d)
  deleted got d panic = (panic, d)

  unfoldable pub del : K → Action (Unit {0})
  unfolding update
  del key = update λ d.
      let got = o.get d.objs key in
      if is_empty got then (ok tt, d) else deleted got d (o.delete d.objs key)
