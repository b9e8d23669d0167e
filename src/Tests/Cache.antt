-- ===== src/Tests/Cache.antt =====
-- skyobject/cache.go at concrete inputs, over the CXDS in memory.
use cxo.Prelude.{
  returns, none, false, ℕ, ◌≡◌, refl, true, [], ◌∷◌, some, ok, ℕ_discrete, ◌<◌, arith,
}
use cxo.Prelude.Int.{pos}
use cxo.Cxds.Memory.{MemoryObject}
use cxo.Cxds.{u32}
use cxo.Cxds.Counts.{Fits}
use cxo.CxdsApi.{CxdsApi, changed}
use cxo.CxdsApi.InMemory.{memory-view, memory_api, memory_laws}
use cxo.Cache.Item.{lru, Limits, Item, Cache, is_wanted, is_filling}
use cxo.Cache.Clean.{clean_down}
use cxo.Cache.Clean.Keeps.{Keeps}
use cxo.Cache.Clean.Down.{clean_down-Keeps, clean_down_busy}
use cxo.Cache.Coherent.{IsCoherent, logical, Sound, regular}
use cxo.Cache.Get.{Answers, get_transparent}
use cxo.Cache.Access
use cxo.Cache.Count.{Counts, inc_transparent}
use cxo.Cache.Lost.{inc_rc_lost}
use cxo.Tests.Memory.{two_objects}
use mathlib.Core.List.{lookup}

abbrev api : CxdsApi ℕ
api = memory_api ℕ_discrete

abbrev limits : Limits
limits = record {
  enable = true;
  policy = lru;
  max_amount = 1;
  max_volume = 100;
  max_item_size = 10;
  max_object_size = 50;
  amount_low = 1;
  volume_low = 80;
}

-- One item of the cache, with a count that the CXDS has not seen.
abbrev cached : Item ℕ
cached = record { fwant = []; points = 3; fc = pos 1; cc = pos 6; rc = pos 2; val = 7 ∷ 8 ∷ [] }

abbrev small_cache : Cache api ℕ
small_cache = record {
  amount = pos 1;
  volume = pos 2;
  is = (1, cached) ∷ [];
  db = two_objects;
  sent = [];
}

small-found :
    (j : ℕ) (it : Item ℕ) → lookup ℕ_discrete j small_cache.is ≡ some it → (j ≡ 1) × (it ≡ cached)
unfolding lookup
small-found j it h = ground arith

cached-Sound : Sound cached (lookup ℕ_discrete 1 two_objects.kvs)
unfolding lookup ℕ_discrete is_wanted is_filling
cached-Sound = regular 2 5 refl refl refl refl refl (omega arith) (omega arith)

two_objects-bounded :
    (j : ℕ) (mo : MemoryObject) → lookup ℕ_discrete j two_objects.kvs ≡ some mo → mo.rc < u32
unfolding lookup
two_objects-bounded j mo h = ground arith

small-IsCoherent : IsCoherent (memory_laws ℕ_discrete) small_cache
small-IsCoherent = record {
  distinct = (unfold lookup in refl, tt);
  sound = λ j it h. let (p, q) = small-found j it h in rw (p, q, memory-view) cached-Sound;
  bounded = λ j mo. rw memory-view (two_objects-bounded j mo);
}

cached-shown :
    (mo : MemoryObject)
    → logical (memory_laws ℕ_discrete) small_cache 1 ≡ some mo
    → Fits mo.rc (pos 2)
unfolding lookup ℕ_discrete is_filling
cached-shown mo h = ground arith

get_transparent_example :
    Answers
      (memory_laws ℕ_discrete)
      limits
      9
      1
      (pos 2)
      small_cache
      (Access.get limits 9 1 (pos 2) small_cache)
get_transparent_example =
    get_transparent (memory_laws ℕ_discrete) limits 9 1 (pos 2) small_cache small-IsCoherent
      cached-shown

clean_down-Keeps_example :
    Keeps (memory_laws ℕ_discrete) small_cache (clean_down limits 4 small_cache).1
clean_down-Keeps_example =
    clean_down-Keeps (memory_laws ℕ_discrete) limits 4 small_cache small-IsCoherent

-- A key that is wanted beside the cached one.
abbrev wanted_item : Item ℕ
wanted_item = record {
  fwant = (0, pos 1) ∷ [];
  points = 0;
  fc = pos 0;
  cc = pos 0;
  rc = pos 0;
  val = [];
}

abbrev busy_cache : Cache api ℕ
busy_cache = record small_cache { is = (1, cached) ∷ (6, wanted_item) ∷ [] }

clean_down_busy_example : clean_down limits 4 busy_cache ≡ (ok tt, busy_cache)
unfolding ℕ_discrete
clean_down_busy_example =
    clean_down_busy (memory_laws ℕ_discrete) limits 4 busy_cache 6 wanted_item
      (unfold lookup in refl) (unfold is_wanted is_filling in refl)

abbrev disabled : Limits
disabled = record limits { enable = false }

inc_rc_lost_example :
    ((Access.inc_rc disabled 9 5 (pos 4) small_cache).0 ≡ returns (pos 0) none)
    × ((memory_laws ℕ_discrete).view (Access.inc_rc disabled 9 5 (pos 4) small_cache).1.db 5
        ≡ changed (pos 4) (some (record { rc = 0; val = 9 ∷ [] })))
inc_rc_lost_example =
    inc_rc_lost (memory_laws ℕ_discrete) disabled 9 5 (pos 4) (record { rc = 0; val = 9 ∷ [] })
      small_cache refl (unfold lookup ℕ_discrete in refl)
      (unfold lookup ℕ_discrete in memory-view ℕ_discrete two_objects 5)

inc_transparent_example :
    Counts
      (memory_laws ℕ_discrete)
      limits
      9
      1
      (pos 2)
      small_cache
      (Access.inc_rc limits 9 1 (pos 2) small_cache)
inc_transparent_example =
    inc_transparent (memory_laws ℕ_discrete) limits 9 1 (pos 2) cached small_cache refl
      small-IsCoherent (unfold lookup ℕ_discrete in refl) cached-shown
