-- ===== src/Cxds/Memory/Stat.antt =====
-- data/cxds/memory.go: the four counters against the objects in the map.
use cxo.Prelude.{
  ℕ, zero, suc, ◌+◌, ◌<◌, ◌≡◌, refl, [], ◌∷◌, none, some, ok, ap, sym, ◌∙◌, arith, if◌then◌else◌,
  ltb, length, Option-cases, inl, inr,
}
use cxo.Prelude.Int.{ℤ, pos, ◌+ℤ◌, ◌-ℤ◌, ◌≤ℤ◌, +ℤ-pos, -ℤ_one-ne, negsuc}
use cxo.GoMap.{insert, delete, Distinct, insert-Distinct, delete-Distinct}
use cxo.GoMap.Sum.{sum, sum-insert_new, sum-insert_old, sum-delete}
use cxo.Cxds.{Val, next_rc}
use cxo.Cxds.Memory.{
  MemoryObject, MemoryCxds, new, av, incr, get, create, set_value, set, inc_rc, uncount,
  drop_object, del, recount,
}
use mathlib.Core.List.{lookup}

-- What one object adds to each counter.
abbrev pub one : MemoryObject → ℕ
one mo = 1

abbrev pub is_used : MemoryObject → ℕ
is_used mo = if ltb 0 mo.rc then 1 else 0

abbrev pub size : MemoryObject → ℕ
size mo = length mo.val

abbrev pub used_size : MemoryObject → ℕ
used_size mo = if ltb 0 mo.rc then length mo.val else 0

module _ {K : Type 0} where
  -- `av` moves the counters of used objects from the old weight of an object to the new one.
  av-amount_used :
      (rc nrc vol : ℕ) (m : MemoryCxds K) {a b : ℕ}
      → m.amount_used ≡ pos a
      → b + (if ltb 0 rc then 1 else 0) ≡ a + (if ltb 0 nrc then 1 else 0)
      → (av rc nrc vol m).amount_used ≡ pos b
  unfolding av ◌+ℤ◌ ◌-ℤ◌
  av-amount_used zero nrc vol m h e = ground arith
  av-amount_used (suc rc) zero vol m h e = ground arith
  av-amount_used (suc rc) (suc nrc) vol m h e = ground arith

  av-volume_used :
      (rc nrc vol : ℕ) (m : MemoryCxds K) {a b : ℕ}
      → m.volume_used ≡ pos a
      → b + (if ltb 0 rc then vol else 0) ≡ a + (if ltb 0 nrc then vol else 0)
      → (av rc nrc vol m).volume_used ≡ pos b
  unfolding av ◌+ℤ◌ ◌-ℤ◌
  av-volume_used zero nrc vol m h e = ground arith
  av-volume_used (suc rc) zero vol m h e = ground arith
  av-volume_used (suc rc) (suc nrc) vol m h e = ground arith

  -- `av` leaves the rest alone.
  pub av-kvs : (rc nrc vol : ℕ) (m : MemoryCxds K) → (av rc nrc vol m).kvs ≡ m.kvs
  unfolding av
  av-kvs zero nrc vol m = ground arith
  av-kvs (suc rc) zero vol m = refl
  av-kvs (suc rc) (suc nrc) vol m = refl

  av-all :
      (rc nrc vol : ℕ) (m : MemoryCxds K)
      → ((av rc nrc vol m).amount_all ≡ m.amount_all)
        × ((av rc nrc vol m).volume_all ≡ m.volume_all)
  unfolding av
  av-all zero nrc vol m = ground arith
  av-all (suc rc) zero vol m = (refl, refl)
  av-all (suc rc) (suc nrc) vol m = (refl, refl)

  -- `uncount` takes the weight of an object off each counter.
  uncount-parts :
      (rc vol : ℕ) (m : MemoryCxds K) (n a b u n' a' b' u' : ℕ)
      → (m.amount_all ≡ pos n)
        × (m.amount_used ≡ pos a)
        × (m.volume_all ≡ pos b)
        × (m.volume_used ≡ pos u)
      → (n' + 1 ≡ n)
        × (a' + (if ltb 0 rc then 1 else 0) ≡ a)
        × (b' + vol ≡ b)
        × (u' + (if ltb 0 rc then vol else 0) ≡ u)
      → ((uncount rc vol m).amount_all ≡ pos n')
        × ((uncount rc vol m).amount_used ≡ pos a')
        × ((uncount rc vol m).volume_all ≡ pos b')
        × ((uncount rc vol m).volume_used ≡ pos u')
  unfolding uncount ◌-ℤ◌
  uncount-parts rc vol m n a b u n' a' b' u' h e = ground arith

module _ {K : Type 0} (dec : Discrete K) where
  -- The counters are those of the objects in the map.
  pub record IsCounted (m : MemoryCxds K) : Type 0 where
    pub distinct : Distinct dec m.kvs
    pub all : m.amount_all ≡ pos (sum one m.kvs)
    pub used : m.amount_used ≡ pos (sum is_used m.kvs)
    pub volume : m.volume_all ≡ pos (sum size m.kvs)
    pub used_volume : m.volume_used ≡ pos (sum used_size m.kvs)

  pub new-IsCounted : IsCounted (new K)
  unfolding new sum
  new-IsCounted = record {
    distinct = tt;
    all = refl;
    used = refl;
    volume = refl;
    used_volume = refl;
  }

  -- `incr` on a present object keeps the counters right.
  recount-IsCounted :
      (key : K) (mo : MemoryObject) (nrc : ℕ) (m : MemoryCxds K)
      → IsCounted m
      → lookup dec key m.kvs ≡ some mo
      → IsCounted (recount dec key mo mo.rc nrc m).1
  recount-IsCounted key mo nrc m c h = record {
    distinct = rw av-kvs (insert-Distinct dec key mo' m.kvs c.distinct);
    all = rw ((av-all mo.rc nrc vol m').0, av-kvs, c.all) (ap pos (omega (arith, sums one)));
    used = rw av-kvs (av-amount_used mo.rc nrc vol m' c.used (omega (arith, sums is_used)));
    volume = rw ((av-all mo.rc nrc vol m').1, av-kvs, c.volume) (ap pos (omega (arith, sums size)));
    used_volume =
        rw av-kvs (av-volume_used mo.rc nrc vol m' c.used_volume (omega (arith, sums used_size)));
  }
    where
      vol : ℕ
      vol = length mo.val

      mo' : MemoryObject
      mo' = record mo { rc = nrc }

      m' : MemoryCxds K
      m' = record m { kvs = insert dec key mo' m.kvs }

      sums : (w : MemoryObject → ℕ) → sum w (insert dec key mo' m.kvs) + w mo ≡ sum w m.kvs + w mo'
      sums w = sum-insert_old dec w key mo' mo m.kvs h

  incr-IsCounted :
      (key : K) (mo : MemoryObject) (inc : ℤ) (m : MemoryCxds K)
      → IsCounted m
      → lookup dec key m.kvs ≡ some mo
      → IsCounted (incr dec key mo mo.rc inc m).1
  unfolding incr
  incr-IsCounted key mo (pos zero) m c h = c
  incr-IsCounted key mo (pos (suc n)) m c h = recount-IsCounted key mo _ m c h
  incr-IsCounted key mo (negsuc n) m c h = recount-IsCounted key mo _ m c h

  -- Whatever the key and the change, `Get` keeps the four counters right.
  pub get-IsCounted :
      (key : K) (inc : ℤ) (m : MemoryCxds K) → IsCounted m → IsCounted (get dec key inc m).1
  unfolding get
  get-IsCounted key inc m c = elim (Option-cases (lookup dec key m.kvs)) [
    | inl e ↦ rw (e, get) c
    | inr (mo, e) ↦ rw (e, get) (incr-IsCounted key mo inc m c e)
  ]

  -- Whatever the key and the change, `Inc` keeps the counters right.
  pub inc_rc-IsCounted :
      (key : K) (inc : ℤ) (m : MemoryCxds K) → IsCounted m → IsCounted (inc_rc dec key inc m).1
  unfolding inc_rc
  inc_rc-IsCounted key inc m c = elim (Option-cases (lookup dec key m.kvs)) [
    | inl e ↦ rw (e, inc_rc) c
    | inr (mo, e) ↦ rw (e, inc_rc) (incr-IsCounted key mo inc m c e)
  ]

  create-IsCounted :
      (key : K) (val : Val) (rc : ℕ) (m : MemoryCxds K)
      → 0 < rc
      → IsCounted m
      → lookup dec key m.kvs ≡ none
      → IsCounted (create dec key val rc m)
  unfolding create
  create-IsCounted key val rc m p c h = record {
    distinct = insert-Distinct dec key mo m.kvs c.distinct;
    all = +ℤ-pos (sum one m.kvs) 1 _ c.all (omega (arith, sums one));
    used = +ℤ-pos (sum is_used m.kvs) 1 _ c.used (ground (arith, sums is_used));
    volume = +ℤ-pos (sum size m.kvs) _ _ c.volume (omega (arith, sums size));
    used_volume = +ℤ-pos (sum used_size m.kvs) _ _ c.used_volume (ground (arith, sums used_size));
  }
    where
      mo : MemoryObject
      mo = record { rc = rc; val = val }

      sums : (w : MemoryObject → ℕ) → sum w (insert dec key mo m.kvs) ≡ sum w m.kvs + w mo
      sums w = sum-insert_new dec w key mo m.kvs h

  -- `Set` by less than 2 ^ 32 keeps the counters right, also where it fails or panics.
  pub set-IsCounted :
      (key : K) (val : Val) (inc : ℤ) (m : MemoryCxds K)
      → inc ≤ℤ pos 4294967295
      → IsCounted m
      → IsCounted (set dec key val inc m).1
  unfolding set set_value
  set-IsCounted key [] (pos (suc n)) m b c = c
  set-IsCounted key (x ∷ val) (pos (suc n)) m b c = elim (Option-cases (lookup dec key m.kvs)) [
    | inl e ↦ rw (e, set_value) (create-IsCounted key (x ∷ val) _ m (omega arith) c e)
    | inr (mo, e) ↦ rw (e, set_value) (incr-IsCounted key mo (pos (suc n)) m c e)
  ]
  set-IsCounted key val inc m b c = c

  pub drop_object-IsCounted :
      (key : K) (mo : MemoryObject) (m : MemoryCxds K)
      → IsCounted m
      → lookup dec key m.kvs ≡ some mo
      → IsCounted (drop_object dec key mo m)
  unfolding drop_object
  drop_object-IsCounted key mo m c h = record {
    distinct = delete-Distinct dec key m.kvs c.distinct;
    all = parts.0;
    used = parts.1;
    volume = parts.2;
    used_volume = parts.3;
  }
    where
      sums : (w : MemoryObject → ℕ) → sum w (delete dec key m.kvs) + w mo ≡ sum w m.kvs
      sums w = sum-delete dec w key mo m.kvs c.distinct h

      open c use {all, used, volume, used_volume}

      m' : MemoryCxds K
      m' = record m { kvs = delete dec key m.kvs }

      parts :
          ((uncount mo.rc (length mo.val) m').amount_all ≡ pos (sum one m'.kvs))
          × ((uncount mo.rc (length mo.val) m').amount_used ≡ pos (sum is_used m'.kvs))
          × ((uncount mo.rc (length mo.val) m').volume_all ≡ pos (sum size m'.kvs))
          × ((uncount mo.rc (length mo.val) m').volume_used ≡ pos (sum used_size m'.kvs))
      parts =
          uncount-parts mo.rc (length mo.val) m' _ _ _ _ _ _ _ _ (all, used, volume, used_volume)
            (sums one, sums is_used, sums size, sums used_size)

  -- The result of `Get` depends on the map alone.
  pub incr-count :
      (key : K) (mo : MemoryObject) (rc : ℕ) (inc : ℤ) (m : MemoryCxds K)
      → (incr dec key mo rc inc m).0 ≡ next_rc rc inc
  unfolding incr next_rc
  incr-count key mo rc (pos zero) m = refl
  incr-count key mo rc (pos (suc n)) m = refl
  incr-count key mo rc (negsuc n) m = refl

  get-result :
      (key : K) (inc : ℤ) (mo : MemoryObject) (m : MemoryCxds K)
      → lookup dec key m.kvs ≡ some mo
      → (get dec key inc m).0 ≡ ok (mo.val, next_rc mo.rc inc)
  unfolding get
  get-result key inc mo m h = rw (h, get, incr-count)

  -- `Del` of a present object, where the counters are right, leaves the object in the map, so that
  -- `Get` still finds it, and leaves the counters wrong.
  pub del_keeps_object :
      (key : K) (inc : ℤ) (mo : MemoryObject) (m : MemoryCxds K)
      → IsCounted m
      → lookup dec key m.kvs ≡ some mo
      → ((get dec key inc (del dec key m)).0 ≡ ok (mo.val, next_rc mo.rc inc))
        × ¬ IsCounted (del dec key m)
  unfolding del uncount
  del_keeps_object key inc mo m c h = (
    rw (h, del) (get-result key inc mo _ h),
    rw (h, del) (λ c'. -ℤ_one-ne m.amount_all (c'.all ∙ sym c.all)),
  )
