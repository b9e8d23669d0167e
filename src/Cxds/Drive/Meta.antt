-- ===== src/Cxds/Drive/Meta.antt =====
-- data/cxds/drive.go: the meta bucket. `NewDriveCXDS` makes or checks it, `saveStat` and `loadStat`
-- keep the four counters in it while the database is closed.
use cxo.Prelude.{
  Bool, true, false, Option, none, some, Error, Result, ok, err, ◌>>=◌, if◌then◌else◌, ltb, ◌==◌,
  is_empty, length,
}
use cxo.Prelude.Int.{ℤ, pos}
use cxo.Bolt.{Bolt}
use cxo.Cxds.{to_uint32}
use cxo.Cxds.Bytes.{version, version_bytes, encode_uint32, decode_uint32, uint32}
use mathlib.Core.Option.{get_or}
use cxo.Cxds.Drive.{Counters, DriveCxds}

-- The keys of the meta bucket.
pub data MetaKey : Type 0 where
  version_key amount_all_key amount_used_key volume_all_key volume_used_key : MetaKey

-- The file: each bucket is there or not.
pub record DbFile (o mt : Type 0) : Type 0 where
  pub objs : Option o
  pub meta : Option mt

module _ (mt : Bolt MetaKey) where
  -- One `Get` of `loadStat`, with its test of the length.
  unfoldable pub load_counter : mt.Bucket → MetaKey → Result ℤ
  load_counter info k =
      let val = mt.get info k in
      if length val == 4
      then (do u ← decode_uint32 val; ok (pos u))
      else err Error.wrong_value_length

  -- `loadStat`
  unfoldable pub load_stat : mt.Bucket → Result Counters
  unfolding load_counter
  load_stat info = do
    amount_all ← load_counter info amount_all_key
    amount_used ← load_counter info amount_used_key
    volume_all ← load_counter info volume_all_key
    volume_used ← load_counter info volume_used_key
    ok (record {
      amount_all = amount_all;
      amount_used = amount_used;
      volume_all = volume_all;
      volume_used = volume_used;
    })

  -- The commit of an update of the meta bucket.
  abbrev pub committed : mt.Bucket → Option Error → Result mt.Bucket
  committed info none = ok info
  committed info (some e) = err e

  -- `saveStat`
  unfoldable pub save_stat : Counters → mt.Bucket → Result mt.Bucket
  save_stat c info = do
    info ← mt.put info amount_all_key (encode_uint32 (to_uint32 c.amount_all))
    info ← mt.put info amount_used_key (encode_uint32 (to_uint32 c.amount_used))
    info ← mt.put info volume_all_key (encode_uint32 (to_uint32 c.volume_all))
    info ← mt.put info volume_used_key (encode_uint32 (to_uint32 c.volume_used))
    committed info (mt.commit info)

  -- The version of an existing database against the version of this code.
  unfoldable pub check_version : mt.Bucket → Result (Unit {0})
  check_version info =
      let vb = mt.get info version_key in
      if is_empty vb then err Error.missing_version else (do
        vers ← uint32 vb
        if vers == version
            then ok tt
            else if ltb vers version
            then err Error.old_version
            else err Error.new_version)

  -- The meta bucket that `NewDriveCXDS` works with, and whether it has to save the counters:
  -- `created` says that there was no file, `blank` is the bucket that `CreateBucket` makes.
  unfoldable pub open_meta : Bool → mt.Bucket → Option mt.Bucket → Result (mt.Bucket × Bool)
  unfolding check_version
  open_meta created blank none =
      if created
      then (do info ← mt.put blank version_key version_bytes; ok (info, true))
      else err Error.missing_meta_info
  open_meta created blank (some info) = do _ ← check_version info; ok (info, false)

  -- The counters of a new database are saved, those of an old one are loaded.
  unfoldable pub open_stat : mt.Bucket × Bool → Result (Counters × mt.Bucket)
  unfolding save_stat load_stat
  open_stat (info, true) = do
    let zeroes : Counters = record {
      amount_all = pos 0;
      amount_used = pos 0;
      volume_all = pos 0;
      volume_used = pos 0;
    }
    info ← save_stat zeroes info
    ok (zeroes, info)
  open_stat (info, false) = do c ← load_stat info; ok (c, info)

  module _ {K : Type 0} (o : Bolt K) where
    -- `NewDriveCXDS`, the file once open: `objsBucket` is made unless it is there.
    unfoldable pub open_drive :
        Bool → mt.Bucket → o.Bucket → DbFile o.Bucket mt.Bucket → Result (DriveCxds o × mt.Bucket)
    unfolding open_meta open_stat
    open_drive created blank_meta blank_objs file = do
      (info, save) ← open_meta created blank_meta file.meta
      info ← committed info (mt.commit info)
      (c, info) ← open_stat (info, save)
      ok (record { objs = get_or file.objs blank_objs; counters = c }, info)

    -- `Close`, as far as the database goes.
    unfoldable pub close_drive : DriveCxds o → mt.Bucket → Result mt.Bucket
    unfolding save_stat
    close_drive d info = save_stat d.counters info
