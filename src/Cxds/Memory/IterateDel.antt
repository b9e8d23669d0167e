-- ===== src/Cxds/Memory/IterateDel.antt =====
-- data/cxds/memory.go: `IterateDel`, which deletes from the map that it ranges over.
use cxo.Prelude.{
  ℕ, ◌≡◌, refl, Bool, [], ◌∷◌, Option, none, some, Error, arith, if◌then◌else◌, ite, Option-cases,
  Bool-cases, inl, inr, ◌∙◌,
}
use cxo.GoMap.{GoMap, delete, Distinct, lookup-delete}
use cxo.Cxds.{Val}
use cxo.Cxds.Memory.{MemoryObject, MemoryCxds, uncount, drop_object, iterate_del_over, iterate_del}
use cxo.Cxds.Memory.Stat.{IsCounted, drop_object-IsCounted}
use mathlib.Core.List.{lookup}

module _ {K : Type 0} (dec : Discrete K) where
  -- Each entry of the list is the one that the map has under its key.
  abbrev Found : GoMap K MemoryObject → GoMap K MemoryObject → Type 0
  Found [] m = Unit
  Found ((k, v) ∷ l) m = (lookup dec k m ≡ some v) × Found l m

  Found-delete :
      (k : K) (l m : GoMap K MemoryObject)
      → lookup dec k l ≡ none
      → Found l m
      → Found l (delete dec k m)
  unfolding lookup
  Found-delete k [] m h f = tt
  Found-delete k ((j, v) ∷ l) m h (here, f) =
      ground (arith, lookup-delete dec k j m, Found-delete k l m)

  Found-cons :
      (j : K) (w : MemoryObject) (l m : GoMap K MemoryObject)
      → lookup dec j l ≡ none
      → Found l m
      → Found l ((j, w) ∷ m)
  unfolding lookup
  Found-cons j w [] m h f = tt
  Found-cons j w ((i, v) ∷ l) m h (here, f) = ground (arith, Found-cons j w l m)

  Found-self : (m : GoMap K MemoryObject) → Distinct dec m → Found m m
  unfolding lookup
  Found-self [] d = tt
  Found-self ((k, v) ∷ m) (fresh, d) = (ground arith, Found-cons k v m m fresh (Found-self m d))

  module _ {S : Type 0} (f : S → K → ℕ → Val → Bool × Option Error × S) where
    iterate_del_over-IsCounted :
        (s : S) (l : GoMap K MemoryObject) (m : MemoryCxds K)
        → Distinct dec l
        → Found l m.kvs
        → IsCounted dec m
        → IsCounted dec (iterate_del_over dec f s l m).2
    unfolding iterate_del_over
    iterate_del_over-IsCounted s [] m d h c = c
    iterate_del_over-IsCounted s ((k, mo) ∷ l) m (fresh, d) (here, h) c =
        elim (Option-cases (f s k mo.rc mo.val).1) [
          | inr (er, e) ↦ rw (e, iterate_del_over) c
          | inl e ↦
              rw (e, iterate_del_over)
                (elim (Bool-cases (f s k mo.rc mo.val).0) [
                  | inl b ↦ rw b (
                      iterate_del_over-IsCounted (f s k mo.rc mo.val).2 l (drop_object dec k mo m) d
                        (unfold drop_object uncount in Found-delete k l m.kvs fresh h)
                        (drop_object-IsCounted dec k mo m c here))
                  | inr b ↦ rw b (iterate_del_over-IsCounted (f s k mo.rc mo.val).2 l m d h c)
                ])
        ]

    -- Whatever the callback decides and wherever it stops, `IterateDel` keeps the counters right.
    pub iterate_del-IsCounted :
        (s : S) (m : MemoryCxds K) → IsCounted dec m → IsCounted dec (iterate_del dec f s m).2
    unfolding iterate_del
    iterate_del-IsCounted s m c =
        iterate_del_over-IsCounted s m.kvs m c.distinct (Found-self m.kvs c.distinct) c

  -- A callback that never fails and decides by the object alone.
  abbrev pub decide_by :
      (K → MemoryObject → Bool) → Unit {0} → K → ℕ → Val → Bool × Option Error × Unit {0}
  decide_by p s k rc val = (p k (record { rc = rc; val = val }), none, s)

  -- What the loop leaves of an object.
  abbrev pub kept_by : (K → MemoryObject → Bool) → K → Option MemoryObject → Option MemoryObject
  kept_by p k none = none
  kept_by p k (some mo) = if p k mo then none else some mo

  -- What is under a key after the loop, from what the rest of the range and the map have there.
  abbrev left :
      (K → MemoryObject → Bool)
      → K
      → Option MemoryObject
      → Option MemoryObject
      → Option MemoryObject
  left p k none o = o
  left p k (some mo) o = kept_by p k (some mo)

  drop_object-lookup :
      (k j : K) (mo : MemoryObject) (m : MemoryCxds K)
      → lookup dec j (drop_object dec k mo m).kvs ≡ ite (dec k j) none (lookup dec j m.kvs)
  unfolding drop_object uncount
  drop_object-lookup k j mo m = lookup-delete dec k j m.kvs

  iterate_del_over-lookup :
      (p : K → MemoryObject → Bool) (j : K) (l : GoMap K MemoryObject) (m : MemoryCxds K)
      → Distinct dec l
      → Found l m.kvs
      → lookup dec j (iterate_del_over dec (decide_by p) tt l m).2.kvs
        ≡ left p j (lookup dec j l) (lookup dec j m.kvs)
  unfolding iterate_del_over lookup
  iterate_del_over-lookup p j [] m d h = refl
  iterate_del_over-lookup p j ((k, mo) ∷ l) m (fresh, d) (here, h) = elim (Bool-cases (p k mo)) [
    | inl b ↦
        let ih =
          iterate_del_over-lookup p j l (drop_object dec k mo m) d
            (unfold drop_object uncount in Found-delete k l m.kvs fresh h) in
        rw b (ih ∙ ground (arith, drop_object-lookup k j mo m))
    | inr b ↦ rw b (iterate_del_over-lookup p j l m d h ∙ ground arith)
  ]

  -- Where the counters are right, `IterateDel` with a callback that decides by the object alone
  -- deletes exactly the objects that the callback chooses, and no other.
  pub iterate_del-lookup :
      (p : K → MemoryObject → Bool) (j : K) (m : MemoryCxds K)
      → IsCounted dec m
      → lookup dec j (iterate_del dec (decide_by p) tt m).2.kvs ≡ kept_by p j (lookup dec j m.kvs)
  unfolding iterate_del
  iterate_del-lookup p j m c =
      iterate_del_over-lookup p j m.kvs m c.distinct (Found-self m.kvs c.distinct) ∙ ground arith
