-- ===== src/Tests/Drive.antt =====
-- data/cxds/drive.go at concrete inputs, over association lists.
use cxo.Prelude.{ℕ, ◌≡◌, refl, false, [], ◌∷◌, List, ok, err, Error, some, ℕ_discrete, inl, arith}
use cxo.Prelude.Int.{pos, negsuc}
use cxo.Bolt.{Bolt}
use cxo.GoMap.{insert}
use cxo.Cxds.Bytes.{with_refs_count, put_uint32, version, version_bytes, encode_uint32}
use cxo.Cxds.Memory.{MemoryObject, MemoryCxds, new}
use cxo.Cxds.Memory
use cxo.Cxds.Drive.{DriveCxds, Counters, add_all}
use cxo.Cxds.Drive
use cxo.Cxds.Drive.Agree.{Agrees}
use cxo.Cxds.Drive.Refines.{get-Agrees, inc_rc-Agrees, set-Agrees}
use cxo.Cxds.Drive.Sequences.{
  Call, Call.get, Call.inc, Call.set_once, memory_replies, drive_replies, replies-eq,
  set_new_differs,
}
use cxo.Cxds.Drive.Failures.{set_failed_counts}
use cxo.Cxds.Drive.Meta.{
  MetaKey, version_key, amount_all_key, amount_used_key, volume_all_key, volume_used_key, save_stat,
  close_drive, open_meta, open_stat,
}
use cxo.Cxds.Drive.Reopen.{reopen_counters, created_reopens, versions}
use cxo.Tests.ListBolt.{list_bolt, list_bolt-IsReliable, full_bolt}
use mathlib.Core.List.{lookup}

abbrev store : Bolt ℕ
store = list_bolt ℕ_discrete

abbrev one_object : MemoryCxds ℕ
one_object = record {
  kvs = (1, record { rc = 2; val = 7 ∷ 8 ∷ [] }) ∷ [];
  amount_all = pos 1;
  amount_used = pos 1;
  volume_all = pos 2;
  volume_used = pos 2;
}

abbrev one_stored : DriveCxds store
one_stored = record {
  objs = (1, with_refs_count 2 (7 ∷ 8 ∷ [])) ∷ [];
  counters = record {
    amount_all = pos 1;
    amount_used = pos 1;
    volume_all = pos 2;
    volume_used = pos 2;
  };
}

one-Agrees : Agrees store one_object one_stored
unfolding lookup
one-Agrees = record {
  objects = λ k. ground arith;
  bounded = λ k mo h. ground arith;
  counters = refl;
}

set-Agrees_example :
    (d : DriveCxds store) × (Drive.set store 4 (3 ∷ []) (pos 1) one_stored
      ≡ ((Memory.set ℕ_discrete 4 (3 ∷ []) (pos 1) one_object).0, d))
    × Agrees store (Memory.set ℕ_discrete 4 (3 ∷ []) (pos 1) one_object).1 d
set-Agrees_example =
    set-Agrees store (list_bolt-IsReliable ℕ_discrete) 4 (3 ∷ []) (pos 1) one_object one_stored
      (inl refl) one-Agrees

get-Agrees_example :
    (d : DriveCxds store) × (Drive.get store 1 (negsuc 0) one_stored
      ≡ ((Memory.get ℕ_discrete 1 (negsuc 0) one_object).0, d))
    × Agrees store (Memory.get ℕ_discrete 1 (negsuc 0) one_object).1 d
get-Agrees_example =
    get-Agrees store (list_bolt-IsReliable ℕ_discrete) 1 (negsuc 0) one_object one_stored one-Agrees

inc_rc-Agrees_example :
    (d : DriveCxds store) × (Drive.inc_rc store 1 (pos 3) one_stored
      ≡ ((Memory.inc_rc ℕ_discrete 1 (pos 3) one_object).0, d))
    × Agrees store (Memory.inc_rc ℕ_discrete 1 (pos 3) one_object).1 d
inc_rc-Agrees_example =
    inc_rc-Agrees store (list_bolt-IsReliable ℕ_discrete) 1 (pos 3) one_object one_stored one-Agrees

abbrev calls : List (Call ℕ)
calls = set_once 4 (3 ∷ []) ∷ inc 1 (pos 5) ∷ get 4 (negsuc 0) ∷ get 9 (pos 1) ∷ []

replies-eq_example : drive_replies store calls one_stored ≡ memory_replies store calls one_object
replies-eq_example =
    replies-eq store (list_bolt-IsReliable ℕ_discrete) calls one_object one_stored one-Agrees

set_new_differs_example :
    ((Memory.set ℕ_discrete 4 (3 ∷ []) (pos 2) one_object).0 ≡ ok 2)
    × ((Drive.set store 4 (3 ∷ []) (pos 2) one_stored).0 ≡ ok 1)
unfolding ℕ_discrete
set_new_differs_example =
    set_new_differs store 4 3 [] 1 one_object one_stored (list_bolt-IsReliable ℕ_discrete)
      (omega arith) (unfold lookup in refl) one-Agrees

-- A drive that has run full.
abbrev full_drive : DriveCxds (full_bolt ℕ_discrete)
full_drive = record { objs = one_stored.objs; counters = one_stored.counters }

set_failed_counts_example : Drive.set (full_bolt ℕ_discrete) 4 (3 ∷ []) (pos 2) full_drive ≡ (
  err (Error.foreign 0),
  record full_drive {
    counters = record {
      amount_all = pos 2;
      amount_used = pos 2;
      volume_all = pos 3;
      volume_used = pos 3;
    };
  },
)
unfolding ℕ_discrete cxo.Prelude.Int.◌+ℤ◌
set_failed_counts_example =
    set_failed_counts (full_bolt ℕ_discrete) 4 3 [] 1 (Error.foreign 0) full_drive
      (unfold lookup in refl) refl

meta_discrete : Discrete MetaKey
meta_discrete = hlevel

abbrev meta_store : Bolt MetaKey
meta_store = list_bolt meta_discrete

abbrev open_counters : Counters
open_counters = record {
  amount_all = pos 7;
  amount_used = pos 5;
  volume_all = pos 90;
  volume_used = pos 60;
}

abbrev closing : DriveCxds store
closing = record { objs = []; counters = open_counters }

-- The meta bucket of a new database, and the one that `saveStat` leaves.
abbrev new_meta : meta_store.Bucket
new_meta = insert meta_discrete version_key version_bytes []

abbrev saved_meta : meta_store.Bucket
saved_meta = insert meta_discrete volume_used_key (put_uint32 version) (
    insert meta_discrete volume_all_key (put_uint32 version) (
      insert meta_discrete amount_used_key (put_uint32 version)
        (insert meta_discrete amount_all_key (put_uint32 version) new_meta)))

reopen_counters_example :
    open_stat meta_store (saved_meta, false) ≡ ok (versions meta_store, saved_meta)
reopen_counters_example =
    reopen_counters meta_store store closing new_meta saved_meta
      (unfold close_drive save_stat encode_uint32 in refl)

created_reopens_example : open_meta meta_store false [] (some saved_meta) ≡ ok (saved_meta, false)
created_reopens_example =
    created_reopens meta_store [] new_meta saved_meta open_counters (unfold open_meta in refl)
      (unfold save_stat encode_uint32 in refl) false
