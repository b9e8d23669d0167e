-- ===== src/Cache/Transparent.antt =====
-- skyobject/cache.go: the cache is transparent. `Get` returns what the cache shows, and changes what
-- it shows as the CXDS itself would.
use cxo.Prelude.{
  ℕ, zero, suc, ◌<◌, ◌≡◌, refl, ap, sym, subst, ◌∙◌, false, [], ◌∷◌, Option, some, Result, ok, err,
  panic, if_pos, if_neg, arith, Bool-cases, Option-cases, inl, inr, length,
}
use cxo.Prelude.Int.{pos}
use cxo.GoMap.{lookup-insert, insert-Distinct}
use cxo.Cxds.{Val, u32}
use cxo.Cxds.Memory.{MemoryObject}
use cxo.CxdsApi.{CxdsApi, IsCxds}
use cxo.Cache.Item.{Limits, Item, Cache, is_wanted, is_filling, touch, store, lru, lfu, CachePolicy}
use cxo.Cache.Clean.{make_room, fill, filled, is_cacheable, put_filling_item}
use cxo.Cache.Clean.Keeps.{Keeps}
use cxo.Cache.Clean.Down.{make_room-Keeps}
use cxo.Cache.Coherent.{
  IsCoherent, Sound, wanted, filling, regular, logical, shown, IsQuiet, update_lem,
}
use mathlib.Core.List.{lookup}

module _ {K : Type 0} {a : CxdsApi K} (l : IsCxds a) {C : Type 0} where
  pub touch-Sound :
      (policy : CachePolicy) (now : ℕ) (it : Item C) (o : Option MemoryObject)
      → Sound it o
      → Sound (touch policy now it) o
  unfolding touch is_wanted is_filling
  touch-Sound lru now it o (wanted w f e) = wanted w f e
  touch-Sound lru now it o (filling w f) = filling w f
  touch-Sound lru now it o (regular r n w f e er em p q) = regular r n w f e er em p q
  touch-Sound lfu now it o (wanted w f e) = wanted w f e
  touch-Sound lfu now it o (filling w f) = filling w f
  touch-Sound lfu now it o (regular r n w f e er em p q) = regular r n w f e er em p q

  pub touch-shown :
      (policy : CachePolicy) (now : ℕ) (it : Item C) (o : Option MemoryObject)
      → shown (some (touch policy now it)) o ≡ shown (some it) o
  unfolding touch is_filling
  touch-shown lru now it o = refl
  touch-shown lfu now it o = refl

  -- Under a quiet key the CXDS has what is shown.
  pub quiet-shown : (key : K) (c : Cache a C) → IsQuiet l key c → logical l c key ≡ l.view c.db key
  quiet-shown key c q = elim (Option-cases (lookup a.dec key c.is)) [
    | inl e ↦ rw e
    | inr (it, e) ↦ rw (e, q it e)
  ]

  -- A value from the CXDS with its count, as a cached item.
  filled-Sound :
      (it : Item C) (val : Val) (rc : ℕ) (o : Option MemoryObject)
      → is_wanted it ≡ false
      → o ≡ some (record { rc = rc; val = val })
      → 0 < rc
      → rc < u32
      → Sound (record it { val = val; rc = pos rc; cc = pos rc }) o
  unfolding is_wanted is_filling
  filled-Sound it [] rc o w e p q = filling w refl
  filled-Sound it (b ∷ bs) (suc n) o w e p q = regular (suc n) n w refl e refl refl q q
  filled-Sound it (b ∷ bs) zero o w e p q = absurd (omega arith)

  filled-shown :
      (it : Item C) (val : Val) (rc : ℕ)
      → shown
          (some (record it { val = val; rc = pos rc; cc = pos rc }))
          (some (record { rc = rc; val = val }))
        ≡ some (record { rc = rc; val = val })
  unfolding is_filling
  filled-shown it [] rc = refl
  filled-shown it (b ∷ bs) rc = refl

  fill-Keeps :
      (c0 : Limits) (now : ℕ) (key : K) (val : Val) (rc : ℕ) (it : Item C) (c : Cache a C)
      → IsCoherent l c
      → is_wanted it ≡ false
      → IsQuiet l key c
      → l.view c.db key ≡ some (record { rc = rc; val = val })
      → 0 < rc
      → rc < u32
      → IsCoherent l (fill c0 now key val rc it c)
        × ((j : K) → logical l (fill c0 now key val rc it c) j ≡ logical l c j)
  unfolding fill store
  fill-Keeps c0 now key val rc it c h w q e p lt =
      let it' : Item C = record it { val = val; rc = pos rc; cc = pos rc } in
      let o : Option MemoryObject = some (record { rc = rc; val = val }) in
      let (h', shows) =
        update_lem l key (some (touch c0.policy now it')) o c (fill c0 now key val rc it c) h
          (insert-Distinct a.dec key _ c.is h.distinct) (λ j. lookup-insert a.dec key j _ c.is)
          (λ j. elim (a.dec key j) [ yes p ↦ rw (if_pos _ p, ← p) e | no p ↦ rw (if_neg _ p) ])
          (λ i x.
            subst (λ (y : Item C). Sound y o) (ground arith)
              (touch-Sound c0.policy now it' o (filled-Sound it val rc o w refl p lt)))
          (λ mo x. ground arith) in
      (
        h',
        λ j. shows j ∙ elim (a.dec key j) [
          | yes p ↦
              rw (if_pos _ p, touch-shown)
                (filled-shown it val rc ∙ sym e ∙ sym (quiet-shown key c q) ∙ ap (logical l c) p)
          | no p ↦ rw (if_neg _ p)
        ],
      )

  -- A value that is put in the cache, if it is cached at all, with the room that is made for it.
  pub put_filling_item-Keeps :
      (c0 : Limits) (now : ℕ) (key : K) (val : Val) (rc : ℕ) (it : Item C) (c : Cache a C)
      → IsCoherent l c
      → is_wanted it ≡ false
      → IsQuiet l key c
      → l.view c.db key ≡ some (record { rc = rc; val = val })
      → rc < u32
      → IsCoherent l (put_filling_item c0 now key val rc it c).1
        × ((j : K) → logical l (put_filling_item c0 now key val rc it c).1 j ≡ logical l c j)
  unfolding put_filling_item
  put_filling_item-Keeps c0 now key val rc it c h w q e lt =
      elim (Bool-cases (is_cacheable c0 val rc)) [
        | inr never ↦ rw never (h, λ j. refl)
        | inl cached ↦ rw cached (
            put (make_room c0 (length val) c).0 (make_room c0 (length val) c).1
              (make_room-Keeps l c0 (length val) c h) (unfold is_cacheable in ground arith))
      ]
    where
      put :
          (r : Result (Unit {0})) (c' : Cache a C)
          → Keeps l c c'
          → 0 < rc
          → IsCoherent l (filled c0 now key val rc it (r, c')).1
            × ((j : K) → logical l (filled c0 now key val rc it (r, c')).1 j ≡ logical l c j)
      put (ok _) c' k p =
          let q' = k.quiet key q in
          let view' : l.view c'.db key ≡ some (record { rc = rc; val = val }) =
            sym (quiet-shown key c' q') ∙ k.shows key ∙ quiet-shown key c q ∙ e in
          let (h', shows) = fill-Keeps c0 now key val rc it c' k.coherent w q' view' p lt in
          (h', λ j. shows j ∙ k.shows j)
      put (err x) c' k p = (k.coherent, k.shows)
      put panic c' k p = (k.coherent, k.shows)
