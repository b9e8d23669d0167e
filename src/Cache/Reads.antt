-- ===== src/Cache/Reads.antt =====
-- skyobject/cache.go: `Get` against what the cache shows.
use cxo.Prelude.{
  ℕ, zero, suc, ◌<◌, ◌≡◌, refl, ap, subst, ◌∙◌, true, false, Option, none, some, ite, if_pos,
  if_neg, arith,
}
use cxo.Prelude.Int.{ℤ, pos, negsuc, ◌+ℤ◌, ◌-ℤ◌}
use cxo.GoMap.{insert, lookup-insert, insert-Distinct}
use cxo.Cxds.{u32, next_rc}
use cxo.Cxds.Counts.{Fits, next_rc-lt}
use cxo.Cxds.Memory.{MemoryObject}
use cxo.CxdsApi.{CxdsApi, IsCxds, changed}
use cxo.Cache.Item.{
  Limits, Item, Cache, is_wanted, is_filling, delete_item, touch, store, incr, sync, drop,
}
use cxo.Cache.Coherent.{
  IsCoherent, Sound, wanted, filling, regular, logical, shown, IsQuiet, remains, update_lem,
  sync_lem, drop-lookup, drop-Distinct, remains-Sound, remains-shown,
}
use cxo.Cache.Transparent.{touch-Sound, touch-shown, quiet-shown}
use mathlib.Core.List.{lookup}

pub incr-next_rc : (n : ℕ) (inc : ℤ) → Fits n inc → n < u32 → incr (pos n) inc ≡ pos (next_rc n inc)
unfolding incr next_rc ◌+ℤ◌
incr-next_rc n (pos zero) h lt = ground arith
incr-next_rc n (pos (suc k)) h lt = ground arith
incr-next_rc n (negsuc k) h lt = ground arith

changed-bounded :
    (inc : ℤ) (o : Option MemoryObject)
    → ((mo : MemoryObject) → o ≡ some mo → mo.rc < u32)
    → (mo : MemoryObject) → changed inc o ≡ some mo
    → mo.rc < u32
changed-bounded inc none b mo e = absurd (ground arith)
changed-bounded inc (some m) b mo e =
    let same : record m { rc = next_rc m.rc inc } ≡ mo = ground arith in
    subst (λ (x : MemoryObject). x.rc < u32) same (next_rc-lt m.rc inc (b m refl))

module _ {K : Type 0} {a : CxdsApi K} (l : IsCxds a) {C : Type 0} where
  -- What the step does to what is shown: the count under the key changes, and nothing else does.
  pub record Changes (key : K) (inc : ℤ) (c c' : Cache a C) : Type 0 where
    pub coherent : IsCoherent l c'
    pub shows :
        (j : K) → logical l c' j ≡ ite (a.dec key j) (changed inc (logical l c key)) (logical l c j)

  -- A key that is not wanted may be changed in the CXDS while no value is cached under it.
  Sound-changed :
      (it : Item C) (inc : ℤ) (o : Option MemoryObject)
      → is_filling it ≡ true
      → Sound it o
      → Sound it (changed inc o)
  Sound-changed it inc o f (wanted w f' e) = wanted w f' (rw e)
  Sound-changed it inc o f (filling w f') = filling w f'
  Sound-changed it inc o f (regular r n w f' e er em p q) = absurd (ground arith)

  quiet-item-shown :
      (x : Option (Item C)) (o : Option MemoryObject)
      → ((it : Item C) → x ≡ some it → is_filling it ≡ true)
      → shown x o ≡ o
  quiet-item-shown none o q = refl
  quiet-item-shown (some it) o q = rw (q it refl)

  -- `db().Get` under a quiet key.
  pub db_step :
      (key : K) (inc : ℤ) (c : Cache a C)
      → IsCoherent l c
      → IsQuiet l key c
      → Changes key inc c (record c { db = (a.get key inc c.db).1 })
  db_step key inc c h q =
      let x = lookup a.dec key c.is in
      let o = changed inc (l.view c.db key) in
      let (h', shows) =
        update_lem l key x o c (record c { db = (a.get key inc c.db).1 }) h h.distinct
          (λ j. elim (a.dec key j) [ yes p ↦ rw (if_pos _ p, ← p) | no p ↦ rw (if_neg _ p) ])
          (λ j. l.view-get key j inc c.db)
          (λ it e. Sound-changed it inc (l.view c.db key) (q it e) (h.sound key it e))
          (changed-bounded inc (l.view c.db key) (h.bounded key)) in
      record {
        coherent = h';
        shows = λ j. shows j ∙ rw (quiet-item-shown x o q, quiet-shown l key c q);
      }

  -- A cached item under a change: it gets the new count, or leaves the cache at zero, when the CXDS
  -- gets the count.
  pub bump_zero :
      (key : K) (it : Item C) (r n : ℕ) (c : Cache a C)
      → IsCoherent l c
      → lookup a.dec key c.is ≡ some it
      → is_wanted it ≡ false
      → l.view c.db key ≡ some (record { rc = r; val = it.val })
      → it.rc ≡ pos r
      → r < u32
      → IsCoherent l
          (delete_item key (record it { cc = pos 0 }) (store key (record it { cc = pos 0 }) c)).1
        × ((j : K)
            → logical l
                (delete_item key
                  (record it { cc = pos 0 })
                  (store key (record it { cc = pos 0 }) c)).1
                j
              ≡ ite (a.dec key j) (some (record { rc = 0; val = it.val })) (logical l c j))
  unfolding delete_item store
  bump_zero key it r n c h e w o er p =
      let it' : Item C = record it { cc = pos 0 } in
      let (done, views) = sync_lem l key r 0 it.val c.db p (omega arith) o in
      let c1 : Cache a C = record (store key it' c) { db = (sync a key (pos 0 -ℤ pos r) c.db).1 } in
      let stored-Distinct = insert-Distinct a.dec key it' c.is h.distinct in
      let (h', shows) =
        update_lem l key (remains l it') (some (record { rc = 0; val = it.val })) c
          (drop key it' c1) h (drop-Distinct l key it' c1 stored-Distinct)
          (λ j. drop-lookup l key j it' c1 ∙ elim (a.dec key j) [
            | yes y ↦ rw (if_pos _ y, if_pos _ y)
            | no y ↦
                rw (if_neg _ y, if_neg _ y) (lookup-insert a.dec key j it' c.is ∙ rw (if_neg _ y))
          ])
          (unfold drop in views) (λ i x. remains-Sound l it' i _ (unfold is_wanted in w) x)
          (λ mo x. ground arith) in
      let due : pos 0 -ℤ it.rc ≡ pos 0 -ℤ pos r = ap (λ (z : ℤ). pos 0 -ℤ z) er in
      rw (due, done) (h', λ j. shows j ∙ rw (remains-shown l it'))

  pub bump_kept :
      (now : ℕ) (c0 : Limits) (key : K) (it : Item C) (r m : ℕ) (c : Cache a C)
      → IsCoherent l c
      → is_wanted it ≡ false
      → is_filling it ≡ false
      → l.view c.db key ≡ some (record { rc = r; val = it.val })
      → it.rc ≡ pos r
      → r < u32
      → suc m < u32
      → IsCoherent l (store key (touch c0.policy now (record it { cc = pos (suc m) })) c)
        × ((j : K)
            → logical l (store key (touch c0.policy now (record it { cc = pos (suc m) })) c) j
              ≡ ite (a.dec key j) (some (record { rc = suc m; val = it.val })) (logical l c j))
  unfolding store
  bump_kept now c0 key it r m c h w f o er p q =
      let it' : Item C = record it { cc = pos (suc m) } in
      let (h', shows) =
        update_lem l key (some (touch c0.policy now it')) (l.view c.db key) c
          (record c { is = insert a.dec key (touch c0.policy now it') c.is }) h
          (insert-Distinct a.dec key _ c.is h.distinct) (λ j. lookup-insert a.dec key j _ c.is)
          (λ j. elim (a.dec key j) [ yes y ↦ rw (if_pos _ y, ← y) | no y ↦ rw (if_neg _ y) ])
          (λ i x.
            let same : touch c0.policy now it' ≡ i = ground arith in
            subst (λ (y : Item C). Sound y (l.view c.db key)) same
              (touch-Sound l c0.policy now it' _
                (regular r m (unfold is_wanted in w) (unfold is_filling in f) o er refl p q)))
          (h.bounded key) in
      (
        h',
        λ j.
            shows j
            ∙ rw (touch-shown l c0.policy now it' (l.view c.db key)) (unfold is_filling in rw f),
      )
