-- ===== src/Cache/Coherent.antt =====
-- skyobject/cache.go: what the cache shows of an object, and the invariant that relates its items to
-- the CXDS behind it.
use cxo.Prelude.{
  ℕ, zero, suc, ◌<◌, ◌≡◌, refl, ◌∙◌, true, false, Option, none, some, ok, if◌then◌else◌, ite,
  if_pos, if_neg, subst, arith, Bool-cases, inl, inr,
}
use cxo.Prelude.Int.{ℤ, pos, negsuc, ◌-ℤ◌, pos_part, is_zero}
use cxo.GoMap.{Distinct, lookup-insert, lookup-delete, insert-Distinct, delete-Distinct}
use cxo.Cxds.{Val, u32, next_rc}
use cxo.Cxds.Counts.{next_rc-target}
use cxo.Cxds.Memory.{MemoryObject}
use cxo.CxdsApi.{CxdsApi, IsCxds}
use cxo.Cache.Item.{Item, Cache, is_wanted, is_filling, sync, drop, delete_item, emptied}
use mathlib.Core.List.{lookup}

-- What is shown of an object: a cached count and value, or what the CXDS has.
abbrev pub shown : {C : Type 0} → Option (Item C) → Option MemoryObject → Option MemoryObject
shown none o = o
shown (some it) o = if is_filling it then o else some (record { rc = pos_part it.cc; val = it.val })

-- An item against the object that the CXDS has under its key. A wanted item has no object. A
-- regular item has the value of the object, and its `rc` is the count that the CXDS knows.
pub data Sound {C : Type 0} (it : Item C) (o : Option MemoryObject) : Type 0 where
  wanted : is_wanted it ≡ true → is_filling it ≡ true → o ≡ none → Sound it o
  filling : is_wanted it ≡ false → is_filling it ≡ true → Sound it o
  regular :
      (r n : ℕ)
      → is_wanted it ≡ false
      → is_filling it ≡ false
      → o ≡ some (record { rc = r; val = it.val })
      → it.rc ≡ pos r
      → it.cc ≡ pos (suc n)
      → r < u32
      → suc n < u32
      → Sound it o

module _ {K : Type 0} {a : CxdsApi K} (l : IsCxds a) where
  sync_by :
      (key : K) (r m : ℕ) (v : Val) (db : a.Db) (inc : ℤ)
      → l.view db key ≡ some (record { rc = r; val = v })
      → next_rc r inc ≡ m
      → ((sync a key inc db).0 ≡ ok tt)
        × ((j : K)
            → l.view (sync a key inc db).1 j
              ≡ ite (a.dec key j) (some (record { rc = m; val = v })) (l.view db j))
  unfolding sync
  sync_by key r m v db (pos zero) h e = (refl, λ j. unfold next_rc in ground arith)
  sync_by key r m v db (pos (suc n)) h e =
      (rw (l.inc_lem, h), λ j. l.view-inc key j (pos (suc n)) db ∙ ground arith)
  sync_by key r m v db (negsuc n) h e =
      (rw (l.inc_lem, h), λ j. l.view-inc key j (negsuc n) db ∙ ground arith)

  -- `sync` takes the count in the CXDS to the cached one.
  pub sync_lem :
      (key : K) (r m : ℕ) (v : Val) (db : a.Db)
      → r < u32
      → m < u32
      → l.view db key ≡ some (record { rc = r; val = v })
      → ((sync a key (pos m -ℤ pos r) db).0 ≡ ok tt)
        × ((j : K)
            → l.view (sync a key (pos m -ℤ pos r) db).1 j
              ≡ ite (a.dec key j) (some (record { rc = m; val = v })) (l.view db j))
  sync_lem key r m v db p q h = sync_by key r m v db (pos m -ℤ pos r) h (next_rc-target r m p q)

module _ {K : Type 0} {a : CxdsApi K} (l : IsCxds a) {C : Type 0} where
  abbrev pub logical : Cache a C → K → Option MemoryObject
  logical c j = shown (lookup a.dec j c.is) (l.view c.db j)

  pub record IsCoherent (c : Cache a C) : Type 0 where
    pub distinct : Distinct a.dec c.is
    pub sound : (j : K) (it : Item C) → lookup a.dec j c.is ≡ some it → Sound it (l.view c.db j)
    pub bounded : (j : K) (mo : MemoryObject) → l.view c.db j ≡ some mo → mo.rc < u32

  -- A step that changes the item and the object under one key: what it has to show to keep the
  -- invariant, and what the cache then shows.
  pub update_lem :
      (key : K) (x : Option (Item C)) (o : Option MemoryObject) (c c' : Cache a C)
      → IsCoherent c
      → Distinct a.dec c'.is
      → ((j : K) → lookup a.dec j c'.is ≡ ite (a.dec key j) x (lookup a.dec j c.is))
      → ((j : K) → l.view c'.db j ≡ ite (a.dec key j) o (l.view c.db j))
      → ((it : Item C) → x ≡ some it → Sound it o)
      → ((mo : MemoryObject) → o ≡ some mo → mo.rc < u32)
      → IsCoherent c' × ((j : K) → logical c' j ≡ ite (a.dec key j) (shown x o) (logical c j))
  update_lem key x o c c' h d items views sound bounded = (
    record {
      distinct = d;
      sound = λ j it.
          rw (items, views)
            (elim (a.dec key j) [
              | yes p ↦ rw (if_pos _ p, if_pos _ p) (sound it)
              | no p ↦ rw (if_neg _ p, if_neg _ p) (h.sound j it)
            ]);
      bounded = λ j mo. rw views (elim (a.dec key j) [
        | yes p ↦ rw (if_pos _ p) (bounded mo)
        | no p ↦ rw (if_neg _ p) (h.bounded j mo)
      ]);
    },
    λ j.
        rw (items, views)
          (elim (a.dec key j) [
            | yes p ↦ rw (if_pos _ p, if_pos _ p, if_pos _ p)
            | no p ↦ rw (if_neg _ p, if_neg _ p, if_neg _ p)
          ]),
  )

  -- What `drop` leaves of an item.
  abbrev pub remains : Item C → Option (Item C)
  remains it = if is_zero it.fc then none else some (emptied it)

  pub drop-lookup :
      (key j : K) (it : Item C) (c : Cache a C)
      → lookup a.dec j (drop key it c).is ≡ ite (a.dec key j) (remains it) (lookup a.dec j c.is)
  unfolding drop
  drop-lookup key j it c = elim (Bool-cases (is_zero it.fc)) [
    | inl z ↦ rw z (lookup-delete a.dec key j c.is)
    | inr z ↦ rw z (lookup-insert a.dec key j (emptied it) c.is)
  ]

  pub drop-Distinct :
      (key : K) (it : Item C) (c : Cache a C)
      → Distinct a.dec c.is
      → Distinct a.dec (drop key it c).is
  unfolding drop
  drop-Distinct key it c d = elim (Bool-cases (is_zero it.fc)) [
    | inl z ↦ rw z (delete-Distinct a.dec key c.is d)
    | inr z ↦ rw z (insert-Distinct a.dec key (emptied it) c.is d)
  ]

  -- What is left of an item that was not wanted is sound against any object, and shows it.
  pub remains-Sound :
      (it it' : Item C) (o : Option MemoryObject)
      → is_wanted it ≡ false
      → remains it ≡ some it'
      → Sound it' o
  unfolding is_wanted is_filling
  remains-Sound it it' o w e = elim (Bool-cases (is_zero it.fc)) [
    | inl z ↦ absurd (ground arith)
    | inr z ↦
        let kept : Sound (emptied it) o = filling w refl in
        let same : emptied it ≡ it' = ground arith in subst (λ (x : Item C). Sound x o) same kept
  ]

  pub remains-shown : (it : Item C) (o : Option MemoryObject) → shown (remains it) o ≡ o
  unfolding is_filling
  remains-shown it o = ground arith

  -- No value is cached under the key.
  abbrev pub IsQuiet : K → Cache a C → Type 0
  IsQuiet j c = (it : Item C) → lookup a.dec j c.is ≡ some it → is_filling it ≡ true

  remains-quiet : (it it' : Item C) → remains it ≡ some it' → is_filling it' ≡ true
  unfolding is_filling
  remains-quiet it it' e = ground arith

  pub drop-IsQuiet :
      (key j : K) (it : Item C) (c : Cache a C) → IsQuiet j c → IsQuiet j (drop key it c)
  drop-IsQuiet key j it c q it' = rw drop-lookup (elim (a.dec key j) [
    | yes p ↦ rw (if_pos _ p) (remains-quiet it it')
    | no p ↦ rw (if_neg _ p) (q it')
  ])

  -- `delete` of an item by a change that is due: it succeeds, nothing else is shown differently, and
  -- under the key the cached count and value are shown.
  pub delete_item_lem :
      (key : K) (it : Item C) (r m : ℕ) (c : Cache a C)
      → IsCoherent c
      → is_wanted it ≡ false
      → l.view c.db key ≡ some (record { rc = r; val = it.val })
      → it.rc ≡ pos r
      → it.cc ≡ pos m
      → r < u32
      → m < u32
      → ((delete_item key it c).0 ≡ ok tt)
        × IsCoherent (delete_item key it c).1
        × ((j : K)
            → logical (delete_item key it c).1 j
              ≡ ite (a.dec key j) (some (record { rc = m; val = it.val })) (logical c j))
        × ((j : K) → IsQuiet j c → IsQuiet j (delete_item key it c).1)
        × ((j : K)
            → lookup a.dec j (delete_item key it c).1.is
              ≡ ite (a.dec key j) (remains it) (lookup a.dec j c.is))
  unfolding delete_item
  delete_item_lem key it r m c h w o er em p q =
      let e : it.cc -ℤ it.rc ≡ pos m -ℤ pos r = cc in
      let (done, views) = sync_lem l key r m it.val c.db p q o in
      let c1 : Cache a C = record c { db = (sync a key (pos m -ℤ pos r) c.db).1 } in
      let (h', shows) =
        update_lem key (remains it) (some (record { rc = m; val = it.val })) c (drop key it c1) h
          (drop-Distinct key it c1 h.distinct) (λ j. drop-lookup key j it c1) (unfold drop in views)
          (λ it' x. remains-Sound it it' _ w x) (λ mo x. ground arith) in
      rw (e, done)
        (
          refl,
          h',
          (λ j. shows j ∙ rw remains-shown),
          (λ j. drop-IsQuiet key j it c1),
          λ j. drop-lookup key j it c1,
        )
