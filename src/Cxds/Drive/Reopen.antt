-- ===== src/Cxds/Drive/Reopen.antt =====
-- data/cxds/drive.go: closing a database and opening it again.
use cxo.Prelude.{
  first_value, ◌≡◌, ap, sym, subst, ◌∙◌, Bool, true, false, Option, none, some, Error, ok, arith,
  ite,
}
use cxo.Prelude.Int.{pos}
use cxo.Bolt.{Bolt}
use cxo.Cxds.Bytes.{version, version_bytes, encode_uint32, decode_uint32, uint32, put_uint32}
use cxo.Cxds.Drive.{Counters, DriveCxds}
use cxo.Cxds.Drive.Meta.{
  MetaKey, version_key, amount_all_key, amount_used_key, volume_all_key, volume_used_key,
  load_counter, load_stat, committed, save_stat, check_version, open_meta, open_stat, close_drive,
}

module _ (mt : Bolt MetaKey) where
  -- What `saveStat` leaves in the bucket: each counter reads as the version, and nothing else
  -- changes.
  record IsSaved (old new : mt.Bucket) : Type 0 where
    amount_all : mt.get new amount_all_key ≡ put_uint32 version
    amount_used : mt.get new amount_used_key ≡ put_uint32 version
    volume_all : mt.get new volume_all_key ≡ put_uint32 version
    volume_used : mt.get new volume_used_key ≡ put_uint32 version
    same_version : mt.get new version_key ≡ mt.get old version_key

  committed-eq :
      (i : mt.Bucket) (e : Option Error) {j : mt.Bucket} → committed mt i e ≡ ok j → i ≡ j
  committed-eq i none h = ground arith
  committed-eq i (some e) h = cc

  puts-IsSaved :
      (b0 b1 b2 b3 b4 : mt.Bucket)
      → mt.put b0 amount_all_key (put_uint32 version) ≡ ok b1
      → mt.put b1 amount_used_key (put_uint32 version) ≡ ok b2
      → mt.put b2 volume_all_key (put_uint32 version) ≡ ok b3
      → mt.put b3 volume_used_key (put_uint32 version) ≡ ok b4
      → IsSaved b0 b4
  puts-IsSaved b0 b1 b2 b3 b4 p1 p2 p3 p4 = record {
    amount_all =
        ground (arith, g1 amount_all_key, g2 amount_all_key, g3 amount_all_key, g4 amount_all_key);
    amount_used = ground (arith, g2 amount_used_key, g3 amount_used_key, g4 amount_used_key);
    volume_all = ground (arith, g3 volume_all_key, g4 volume_all_key);
    volume_used = ground (arith, g4 volume_used_key);
    same_version = ground (arith, g1 version_key, g2 version_key, g3 version_key, g4 version_key);
  }
    where
      g1 :
          (j : MetaKey)
          → mt.get b1 j ≡ ite (mt.dec amount_all_key j) (put_uint32 version) (mt.get b0 j)
      g1 j = mt.get-put b0 b1 amount_all_key j _ p1

      g2 :
          (j : MetaKey)
          → mt.get b2 j ≡ ite (mt.dec amount_used_key j) (put_uint32 version) (mt.get b1 j)
      g2 j = mt.get-put b1 b2 amount_used_key j _ p2

      g3 :
          (j : MetaKey)
          → mt.get b3 j ≡ ite (mt.dec volume_all_key j) (put_uint32 version) (mt.get b2 j)
      g3 j = mt.get-put b2 b3 volume_all_key j _ p3

      g4 :
          (j : MetaKey)
          → mt.get b4 j ≡ ite (mt.dec volume_used_key j) (put_uint32 version) (mt.get b3 j)
      g4 j = mt.get-put b3 b4 volume_used_key j _ p4

  save_stat-IsSaved :
      (c : Counters) (info info' : mt.Bucket) → save_stat mt c info ≡ ok info' → IsSaved info info'
  unfolding save_stat encode_uint32
  save_stat-IsSaved c info info' h =
      let (b1, h1, p1) = first_value _ (mt.put info amount_all_key (put_uint32 version)) h in
      let (b2, h2, p2) = first_value _ (mt.put b1 amount_used_key (put_uint32 version)) h1 in
      let (b3, h3, p3) = first_value _ (mt.put b2 volume_all_key (put_uint32 version)) h2 in
      let (b4, h4, p4) = first_value _ (mt.put b3 volume_used_key (put_uint32 version)) h3 in
      subst (IsSaved info) (committed-eq b4 (mt.commit b4) h4)
        (puts-IsSaved info b1 b2 b3 b4 p1 p2 p3 p4)

  load_counter-version :
      (info : mt.Bucket) (k : MetaKey)
      → mt.get info k ≡ put_uint32 version
      → load_counter mt info k ≡ ok (pos version)
  unfolding load_counter decode_uint32 put_uint32
  load_counter-version info k h = rw h

  abbrev pub versions : Counters
  versions = record {
    amount_all = pos version;
    amount_used = pos version;
    volume_all = pos version;
    volume_used = pos version;
  }

  -- Whatever the counters were at `Close`, when the database is opened again each of them is the
  -- version of the database, 2: `encodeUint32` writes the version and not its argument.
  pub reopen_counters :
      {K : Type 0} (o : Bolt K) (d : DriveCxds o) (info info' : mt.Bucket)
      → close_drive mt o d info ≡ ok info'
      → open_stat mt (info', false) ≡ ok (versions, info')
  unfolding close_drive open_stat load_stat
  reopen_counters o d info info' h =
      let s = save_stat-IsSaved d.counters info info' h in
      rw (
        load_counter-version info' amount_all_key s.amount_all,
        load_counter-version info' amount_used_key s.amount_used,
        load_counter-version info' volume_all_key s.volume_all,
        load_counter-version info' volume_used_key s.volume_used,
      )

  -- A database that `NewDriveCXDS` has created passes the check of its version when it is opened
  -- again, after its counters have been saved.
  pub created_reopens :
      (blank info info' : mt.Bucket) (c : Counters)
      → open_meta mt true blank none ≡ ok (info, true)
      → save_stat mt c info ≡ ok info'
      → (created : Bool) → open_meta mt created blank (some info') ≡ ok (info', false)
  unfolding open_meta check_version version_bytes uint32 put_uint32
  created_reopens blank info info' c h save created =
      let (b, e, p) = first_value _ (mt.put blank version_key version_bytes) h in
      let s = save_stat-IsSaved c info info' save in
      let w : b ≡ info = ground arith in
      let v : mt.get info' version_key ≡ version_bytes =
        s.same_version
        ∙ ap (λ (x : mt.Bucket). mt.get x version_key) (sym w)
        ∙ mt.get-put blank b version_key version_key version_bytes p
        ∙ ground arith in
      rw v
