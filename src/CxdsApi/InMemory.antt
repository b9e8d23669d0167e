-- ===== src/CxdsApi/InMemory.antt =====
-- data/cxds/memory.go: the CXDS in memory keeps what the interface promises.
use cxo.Prelude.{ite_self, ℕ, zero, suc, ◌≡◌, refl, ◌∷◌, some, ok, ◌∙◌, Option-cases, inl, inr, ite}
use cxo.Prelude.Int.{ℤ, pos, negsuc}
use cxo.GoMap.{lookup-insert}
use cxo.Cxds.{Val, next_rc}
use cxo.Cxds.Memory.{MemoryObject, MemoryCxds, incr, get, inc_rc, set, set_value, create}
use cxo.Cxds.Memory.Stat.{av-kvs, incr-count}
use cxo.CxdsApi.{CxdsApi, IsCxds, changed, get_reply, inc_reply, after_set}
use mathlib.Core.List.{lookup}

module _ {K : Type 0} (dec : Discrete K) where
  abbrev pub memory_api : CxdsApi K
  memory_api = record {
    dec = dec;
    Db = MemoryCxds K;
    get = get dec;
    set = set dec;
    inc = inc_rc dec;
  }

  incr-lookup :
      (key j : K) (mo : MemoryObject) (inc : ℤ) (m : MemoryCxds K)
      → lookup dec key m.kvs ≡ some mo
      → lookup dec j (incr dec key mo mo.rc inc m).1.kvs
        ≡ ite (dec key j) (some (record mo { rc = next_rc mo.rc inc })) (lookup dec j m.kvs)
  unfolding incr next_rc
  incr-lookup key j mo (pos zero) m h = ite_self (λ k. lookup dec k m.kvs) (dec key j) ∙ rw h refl
  incr-lookup key j mo (pos (suc n)) m h = rw (av-kvs, lookup-insert)
  incr-lookup key j mo (negsuc n) m h = rw (av-kvs, lookup-insert)

  get_view :
      (k j : K) (inc : ℤ) (m : MemoryCxds K)
      → ((get dec k inc m).0 ≡ get_reply inc (lookup dec k m.kvs))
        × (lookup dec j (get dec k inc m).1.kvs
            ≡ ite (dec k j) (changed inc (lookup dec k m.kvs)) (lookup dec j m.kvs))
  unfolding get
  get_view k j inc m = elim (Option-cases (lookup dec k m.kvs)) [
    | inl e ↦ (rw (e, get), rw (e, get) (ite_self (λ i. lookup dec i m.kvs) (dec k j) ∙ rw e refl))
    | inr (mo, e) ↦ (rw (e, get, incr-count), rw (e, get) (incr-lookup k j mo inc m e))
  ]

  inc_view :
      (k j : K) (inc : ℤ) (m : MemoryCxds K)
      → ((inc_rc dec k inc m).0 ≡ inc_reply inc (lookup dec k m.kvs))
        × (lookup dec j (inc_rc dec k inc m).1.kvs
            ≡ ite (dec k j) (changed inc (lookup dec k m.kvs)) (lookup dec j m.kvs))
  unfolding inc_rc
  inc_view k j inc m = elim (Option-cases (lookup dec k m.kvs)) [
    | inl e ↦
        (rw (e, inc_rc), rw (e, inc_rc) (ite_self (λ i. lookup dec i m.kvs) (dec k j) ∙ rw e refl))
    | inr (mo, e) ↦ (rw (e, inc_rc, incr-count), rw (e, inc_rc) (incr-lookup k j mo inc m e))
  ]

  set_view :
      (k j : K) (b n : ℕ) (bs : Val) (m : MemoryCxds K)
      → ((set dec k (b ∷ bs) (pos (suc n)) m).0 ≡ ok (after_set (b ∷ bs) n (lookup dec k m.kvs)).rc)
        × (lookup dec j (set dec k (b ∷ bs) (pos (suc n)) m).1.kvs
            ≡ ite (dec k j) (some (after_set (b ∷ bs) n (lookup dec k m.kvs))) (lookup dec j m.kvs))
  unfolding set set_value create
  set_view k j b n bs m = elim (Option-cases (lookup dec k m.kvs)) [
    | inl e ↦ (rw (e, set, set_value), rw (e, set, set_value, create, lookup-insert))
    | inr (mo, e) ↦ (
      rw (e, set, set_value, incr-count),
      rw (e, set, set_value) (incr-lookup k j mo (pos (suc n)) m e),
    )
  ]

  pub memory_laws : IsCxds memory_api
  memory_laws = record {
    view = λ m k. lookup dec k m.kvs;
    get_lem = λ k inc m. (get_view k k inc m).0;
    view-get = λ k j inc m. (get_view k j inc m).1;
    inc_lem = λ k inc m. (inc_view k k inc m).0;
    view-inc = λ k j inc m. (inc_view k j inc m).1;
    set_lem = λ k b n bs m. (set_view k k b n bs m).0;
    view-set = λ k j b n bs m. (set_view k j b n bs m).1;
  }

  pub memory-view : (m : MemoryCxds K) (k : K) → memory_laws.view m k ≡ lookup dec k m.kvs
  unfolding memory_laws
  memory-view m k = refl
