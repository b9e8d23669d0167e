-- ===== src/Cxds/Drive/Failures.antt =====
-- data/cxds/drive.go where BoltDB refuses a write.
use cxo.Prelude.{ℕ, suc, ◌≡◌, [], ◌∷◌, Error, err, length, ◌==◌, if◌then◌else◌}
use cxo.Prelude.Int.{pos, ◌+ℤ◌}
use cxo.Bolt.{Bolt}
use cxo.Cxds.{Val, next_rc}
use cxo.Cxds.Bytes.{with_refs_count}
use cxo.Cxds.Drive.{DriveCxds, Counters, add_all}
use cxo.Cxds.Drive

module _ {K : Type 0} (o : Bolt K) where
  -- `incr` on a bucket that refuses: the error, and the counters changed all the same.
  store_count_refused :
      (key : K) (val : Val) (rc nrc : ℕ) (e : Error) (d : DriveCxds o)
      → o.put d.objs key (with_refs_count nrc val) ≡ err e
      → Drive.store_count o key val rc nrc d ≡ (
        err e,
        record d {
          counters = if rc == nrc then d.counters else Drive.av rc nrc (length val) d.counters;
        },
      )
  unfolding Drive.store_count
  store_count_refused key val rc nrc e d refuses = rw (refuses, Drive.put_result)

  -- If BoltDB refuses to store a new object with its first count, `Set` returns the error and stores
  -- nothing, but the object and its bytes stay in all four counters.
  pub set_failed_counts :
      (key : K) (b : ℕ) (bs : Val) (n : ℕ) (e : Error) (d : DriveCxds o)
      → o.get d.objs key ≡ []
      → o.put d.objs key (with_refs_count 1 (b ∷ bs)) ≡ err e
      → Drive.set o key (b ∷ bs) (pos (suc n)) d ≡ (
        err e,
        record d {
          counters = record {
            amount_all = d.counters.amount_all +ℤ pos 1;
            amount_used = d.counters.amount_used +ℤ pos 1;
            volume_all = d.counters.volume_all +ℤ pos (length (b ∷ bs));
            volume_used = d.counters.volume_used +ℤ pos (length (b ∷ bs));
          };
        },
      )
  unfolding Drive.set Drive.set_value Drive.incr next_rc Drive.av add_all
  set_failed_counts key b bs n e d absent refuses =
      rw (absent, Drive.set_body)
        (rw (
          store_count_refused key (b ∷ bs) 0 1 e
            (record d { counters = add_all (length (b ∷ bs)) d.counters }) refuses))
