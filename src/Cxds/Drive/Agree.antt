-- ===== src/Cxds/Drive/Agree.antt =====
-- data/cxds/memory.go and data/cxds/drive.go against one another: the two implementations of
-- `data.CXDS` give the same answers, as long as BoltDB succeeds.
use cxo.Prelude.{
  ℕ, zero, suc, ◌<◌, ◌≡◌, refl, ap, sym, ◌∙◌, [], Option, none, some, ok, false, arith,
  if◌then◌else◌, ◌==◌, ite, length, is_empty,
}
use cxo.Prelude.Int.{ℤ, pos, negsuc}
use cxo.Bolt.{Bolt, IsReliable}
use cxo.GoMap.{insert, lookup-insert}
use cxo.Cxds.{Val, u32, next_rc}
use cxo.Cxds.Counts.{next_rc-lt}
use cxo.Cxds.Bytes.{
  with_refs_count, get_refs_count-with_refs_count, without_refs_count-with_refs_count,
}
use cxo.Cxds.Memory.{MemoryObject, MemoryCxds}
use cxo.Cxds.Memory
use cxo.Cxds.Memory.Stat.{av-kvs}
use cxo.Cxds.Drive.{Counters, DriveCxds, decode}
use cxo.Cxds.Drive
use mathlib.Core.List.{lookup}

-- The bytes that the drive keeps for an object of the map.
abbrev pub stored : Option MemoryObject → Val
stored none = []
stored (some mo) = with_refs_count mo.rc mo.val

abbrev pub counters_of : {K : Type 0} → MemoryCxds K → Counters
counters_of m = record {
  amount_all = m.amount_all;
  amount_used = m.amount_used;
  volume_all = m.volume_all;
  volume_used = m.volume_used;
}

pub decode-with_refs_count :
    (rc : ℕ) (val : Val) → rc < u32 → decode (with_refs_count rc val) ≡ ok (rc, val)
unfolding decode
decode-with_refs_count rc val h =
    rw (get_refs_count-with_refs_count rc val h, without_refs_count-with_refs_count rc val)

pub with_refs_count-nonempty : (rc : ℕ) (val : Val) → is_empty (with_refs_count rc val) ≡ false
unfolding with_refs_count
with_refs_count-nonempty rc val = refl

av_same : (rc vol : ℕ) (c : Counters) → Drive.av rc rc vol c ≡ c
unfolding Drive.av
av_same zero vol c = ground arith
av_same (suc rc) vol c = refl

-- `driveCXDS.incr` skips `av` where the count does not change, and nothing is lost by that.
skip_av :
    (rc nrc vol : ℕ) (c : Counters)
    → (if rc == nrc then c else Drive.av rc nrc vol c) ≡ Drive.av rc nrc vol c
skip_av rc nrc vol c = ground (arith, av_same rc vol c)

counters-av :
    {K : Type 0} (rc nrc vol : ℕ) (m : MemoryCxds K)
    → counters_of (Memory.av rc nrc vol m) ≡ Drive.av rc nrc vol (counters_of m)
unfolding Memory.av Drive.av
counters-av zero nrc vol m = ground arith
counters-av (suc rc) zero vol m = refl
counters-av (suc rc) (suc nrc) vol m = refl

module _ {K : Type 0} (o : Bolt K) where
  -- The bucket holds what the map holds, the counts are `uint32`s, and the counters are the same.
  pub record Agrees (m : MemoryCxds K) (d : DriveCxds o) : Type 0 where
    pub objects : (k : K) → o.get d.objs k ≡ stored (lookup o.dec k m.kvs)
    pub bounded : (k : K) (mo : MemoryObject) → lookup o.dec k m.kvs ≡ some mo → mo.rc < u32
    pub counters : d.counters ≡ counters_of m

  module _ (r : IsReliable o) where
    -- A successful write of a count.
    pub drive_store_count :
        (key : K) (val : Val) (rc nrc : ℕ) (d : DriveCxds o)
        → (b : o.Bucket) × (Drive.store_count o key val rc nrc d
            ≡ (ok nrc, record { objs = b; counters = Drive.av rc nrc (length val) d.counters }))
          × ((j : K) → o.get b j ≡ ite (o.dec key j) (with_refs_count nrc val) (o.get d.objs j))
    unfolding Drive.store_count
    drive_store_count key val rc nrc d =
        let (b, e) = r.puts d.objs key (with_refs_count nrc val) in
        (b, rw (e, skip_av), λ j. o.get-put d.objs b key j (with_refs_count nrc val) e)

    -- After both have stored the same count, they agree.
    pub store_count-Agrees :
        (key : K) (val : Val) (rc nrc : ℕ) (m : MemoryCxds K) (d : DriveCxds o)
        → nrc < u32
        → Agrees m d
        → (d' : DriveCxds o) × (Drive.store_count o key val rc nrc d ≡ (ok nrc, d'))
          × Agrees
              (Memory.av rc nrc
                (length val)
                (record m { kvs = insert o.dec key (record { rc = nrc; val = val }) m.kvs }))
              d'
    store_count-Agrees key val rc nrc m d lt a =
        let (b, e, gets) = drive_store_count key val rc nrc d in
        (
          record { objs = b; counters = Drive.av rc nrc (length val) d.counters },
          e,
          record {
            objects = λ j. rw (av-kvs, lookup-insert) (gets j ∙ ground (arith, a.objects j));
            bounded = λ j mo. rw (av-kvs, lookup-insert) (λ h. ground (arith, a.bounded j mo));
            counters =
                ap (Drive.av rc nrc (length val)) a.counters
                ∙ sym (counters-av rc nrc (length val) _);
          },
        )

    -- After both have changed the count of an object, they agree.
    pub incr-Agrees :
        (key : K) (mo : MemoryObject) (inc : ℤ) (m : MemoryCxds K) (d : DriveCxds o)
        → lookup o.dec key m.kvs ≡ some mo
        → Agrees m d
        → (d' : DriveCxds o) × (Drive.incr o key mo.val mo.rc inc d ≡ (ok (next_rc mo.rc inc), d'))
          × Agrees (Memory.incr o.dec key mo mo.rc inc m).1 d'
          × (inc ≡ pos 0 → d' ≡ d)
    unfolding Drive.incr Memory.incr next_rc
    incr-Agrees key mo (pos zero) m d h a = (d, refl, a, λ _. refl)
    incr-Agrees key mo (pos (suc n)) m d h a =
        let inc = pos (suc n) in
        let (d', e, a') =
          store_count-Agrees key mo.val mo.rc (next_rc mo.rc inc) m d
            (next_rc-lt mo.rc inc (a.bounded key mo h)) a in
        (d', e, a', λ z. cc)
    incr-Agrees key mo (negsuc n) m d h a =
        let inc = negsuc n in
        let (d', e, a') =
          store_count-Agrees key mo.val mo.rc (next_rc mo.rc inc) m d
            (next_rc-lt mo.rc inc (a.bounded key mo h)) a in
        (d', e, a', λ z. cc)
