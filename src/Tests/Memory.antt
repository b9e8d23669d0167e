-- ===== src/Tests/Memory.antt =====
-- data/cxds/memory.go at concrete inputs.
use cxo.Prelude.{ℕ, ◌≡◌, refl, Bool, [], ◌∷◌, ok, none, ℕ_discrete, ◌==◌, ◌+◌, arith}
use cxo.Prelude.Int.{pos}
use cxo.GoMap.Sum.{sum}
use cxo.Cxds.{next_rc}
use cxo.Cxds.Bytes.{
  get_refs_count-with_refs_count, get_refs_count, with_refs_count, inc_reversed-value, inc_reversed,
  value_reversed, all_max,
}
use cxo.Cxds.Memory.{MemoryObject, MemoryCxds, get, set, del, iterate_del}
use cxo.Cxds.Memory.Stat.{IsCounted, set-IsCounted, del_keeps_object}
use cxo.Cxds.Memory.IterateDel.{iterate_del-IsCounted, iterate_del-lookup, decide_by}
use mathlib.Core.List.{lookup}

abbrev pub two_objects : MemoryCxds ℕ
two_objects = record {
  kvs = (1, record { rc = 2; val = 7 ∷ 8 ∷ [] }) ∷ (5, record { rc = 0; val = 9 ∷ [] }) ∷ [];
  amount_all = pos 2;
  amount_used = pos 1;
  volume_all = pos 3;
  volume_used = pos 2;
}

pub two_objects-IsCounted : IsCounted ℕ_discrete two_objects
unfolding lookup sum ℕ_discrete
two_objects-IsCounted = record {
  distinct = (refl, (refl, tt));
  all = refl;
  used = refl;
  volume = refl;
  used_volume = refl;
}

-- The callback of `IterateDel` that chooses the objects with no references.
abbrev is_garbage : ℕ → MemoryObject → Bool
is_garbage k mo = mo.rc == 0

set-IsCounted_example : IsCounted ℕ_discrete (set ℕ_discrete 3 (4 ∷ 4 ∷ []) (pos 6) two_objects).1
set-IsCounted_example =
    set-IsCounted ℕ_discrete 3 (4 ∷ 4 ∷ []) (pos 6) two_objects (omega arith) two_objects-IsCounted

iterate_del-IsCounted_example :
    IsCounted ℕ_discrete (iterate_del ℕ_discrete (decide_by ℕ_discrete is_garbage) tt two_objects).2
iterate_del-IsCounted_example =
    iterate_del-IsCounted ℕ_discrete (decide_by ℕ_discrete is_garbage) tt two_objects
      two_objects-IsCounted

iterate_del-lookup_example :
    lookup ℕ_discrete 5
      (iterate_del ℕ_discrete (decide_by ℕ_discrete is_garbage) tt two_objects).2.kvs
    ≡ none
unfolding lookup ℕ_discrete
iterate_del-lookup_example =
    iterate_del-lookup ℕ_discrete is_garbage 5 two_objects two_objects-IsCounted

del_keeps_object_example :
    ((get ℕ_discrete 1 (pos 0) (del ℕ_discrete 1 two_objects)).0 ≡ ok (7 ∷ 8 ∷ [], 2))
    × ¬ IsCounted ℕ_discrete (del ℕ_discrete 1 two_objects)
unfolding next_rc ℕ_discrete
del_keeps_object_example =
    del_keeps_object ℕ_discrete 1 (pos 0) (record { rc = 2; val = 7 ∷ 8 ∷ [] }) two_objects
      two_objects-IsCounted (unfold lookup in refl)

get_refs_count-with_refs_count_example :
    get_refs_count (with_refs_count 70000 (1 ∷ 2 ∷ [])) ≡ ok 70000
get_refs_count-with_refs_count_example =
    get_refs_count-with_refs_count 70000 (1 ∷ 2 ∷ []) (omega arith)

inc_reversed-value_example :
    value_reversed (inc_reversed (255 ∷ 3 ∷ [])) ≡ value_reversed (255 ∷ 3 ∷ []) + 1
inc_reversed-value_example = inc_reversed-value (255 ∷ 3 ∷ []) (unfold all_max in refl)
