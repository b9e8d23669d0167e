-- ===== src/Cache/Steps.antt =====
-- skyobject/cache.go: the steps that `Get` and `Inc` share: a cached item gets a new count, and a
-- value from the CXDS is put in the cache.
use cxo.Prelude.{
  length, Bool, Bool-cases, ◌||◌, ◌⊎◌, ℕ, zero, suc, ◌<◌, ◌≡◌, refl, ap, ◌∙◌, true, false, Option,
  none, some, ok, ite, arith, Option-cases, inl, inr,
}
use cxo.Prelude.Int.{◌+ℤ◌, ltb_ℤ, ℤ, pos}
use cxo.Cxds.{u32, next_rc}
use cxo.Cxds.Counts.{Fits, next_rc-lt}
use cxo.Cxds.Memory.{MemoryObject}
use cxo.CxdsApi.{CxdsApi, IsCxds, changed}
use cxo.Cache.Item.{Limits, Item, Cache, is_wanted, is_filling, incr}
use cxo.Cache.Clean.{any_busy, make_room, clean_down, put_filling_item}
use cxo.Cache.Access.{bump, get_filling}
use cxo.Cache.Coherent.{IsCoherent, logical, IsQuiet}
use cxo.Cache.Transparent.{put_filling_item-Keeps}
use cxo.Cache.Reads.{Changes, db_step, bump_zero, bump_kept, incr-next_rc}
use mathlib.Core.List.{lookup}

module _ {K : Type 0} {a : CxdsApi K} (l : IsCxds a) {C : Type 0} (c0 : Limits) (now : ℕ) where
  pub regular-shown :
      (key : K) (it : Item C) (n : ℕ) (c : Cache a C)
      → lookup a.dec key c.is ≡ some it
      → is_filling it ≡ false
      → it.cc ≡ pos n
      → logical l c key ≡ some (record { rc = n; val = it.val })
  regular-shown key it n c e f em = rw (e, f, em)

  pub bump-Changes :
      (key : K) (inc : ℤ) (it : Item C) (r n : ℕ) (c : Cache a C)
      → IsCoherent l c
      → lookup a.dec key c.is ≡ some it
      → is_wanted it ≡ false
      → is_filling it ≡ false
      → l.view c.db key ≡ some (record { rc = r; val = it.val })
      → it.rc ≡ pos r
      → it.cc ≡ pos (suc n)
      → r < u32
      → suc n < u32
      → Fits (suc n) inc
      → Changes l key inc c (bump c0 now inc key it c)
  unfolding bump
  bump-Changes key inc it r n c h e w f o er em p q fits =
      go (next_rc (suc n) inc) (ap (λ (z : ℤ). incr z inc) em ∙ incr-next_rc (suc n) inc fits q)
        refl
    where
      shows-eq :
          (m : ℕ) (j : K)
          → next_rc (suc n) inc ≡ m
          → ite (a.dec key j) (some (record { rc = m; val = it.val })) (logical l c j)
            ≡ ite (a.dec key j) (changed inc (logical l c key)) (logical l c j)
      shows-eq m j x = rw (regular-shown key it (suc n) c e f em, x)

      go :
          (m : ℕ)
          → incr it.cc inc ≡ pos m
          → next_rc (suc n) inc ≡ m
          → Changes l key inc c (bump c0 now inc key it c)
      go zero i x =
          let (h', s) = bump_zero l key it r n c h e w o er p in
          rw (i, bump) (record { coherent = h'; shows = λ j. s j ∙ shows-eq 0 j x })
      go (suc m) i x =
          let lt : suc m < u32 = omega (arith, next_rc-lt (suc n) inc q) in
          let (h', s) = bump_kept l now c0 key it r m c h w f o er p lt in
          rw (i, bump) (record { coherent = h'; shows = λ j. s j ∙ shows-eq (suc m) j x })

  -- A value that comes from the CXDS and may be put into the cache.
  pub fetched-Changes :
      (key : K) (inc : ℤ) (it : Item C) (c : Cache a C)
      → IsCoherent l c
      → is_wanted it ≡ false
      → IsQuiet l key c
      → (mo : MemoryObject) → l.view c.db key ≡ some mo
      → Changes l key inc c
          (put_filling_item c0 now key mo.val
            (next_rc mo.rc inc)
            it
            (record c { db = (a.get key inc c.db).1 })).1
  fetched-Changes key inc it c h w q mo o =
      let step = db_step l key inc c h q in
      let c1 : Cache a C = record c { db = (a.get key inc c.db).1 } in
      let view' : l.view c1.db key ≡ some (record { rc = next_rc mo.rc inc; val = mo.val }) =
        l.view-get key key inc c.db ∙ rw o (ground arith) in
      let (h', s) =
        put_filling_item-Keeps l c0 now key mo.val (next_rc mo.rc inc) it c1 step.coherent w q view'
          (next_rc-lt mo.rc inc (h.bounded key mo o)) in
      record { coherent = h'; shows = λ j. s j ∙ step.shows j }

  pub get_filling-Changes :
      (key : K) (inc : ℤ) (it : Item C) (c : Cache a C)
      → IsCoherent l c
      → is_wanted it ≡ false
      → IsQuiet l key c
      → Changes l key inc c (get_filling c0 now key inc it c).1
  unfolding get_filling
  get_filling-Changes key inc it c h w q = elim (Option-cases (l.view c.db key)) [
    | inl o ↦ rw (l.get_lem, o) (db_step l key inc c h q)
    | inr (mo, o) ↦ rw (l.get_lem, o) (fetched-Changes key inc it c h w q mo o)
  ]

  -- Is the cache at a limit, if the object is to be put in it?
  abbrev pub is_over : Option MemoryObject → Cache a C → Bool
  is_over none c = false
  is_over (some mo) c =
      ltb_ℤ (pos c0.max_amount) (c.amount +ℤ pos 1)
      || ltb_ℤ (pos c0.max_volume) (c.volume +ℤ pos (length mo.val))

  -- Putting a value in fails only where the cache has to clean.
  pub put-result :
      (key : K) (mo : MemoryObject) (rc : ℕ) (it : Item C) (c : Cache a C)
      → ((put_filling_item c0 now key mo.val rc it c).0 ≡ ok tt)
        ⊎ ((is_over (some mo) c ≡ true) × (any_busy c.is ≡ false))
  unfolding put_filling_item make_room clean_down
  put-result key mo rc it c = elim (Bool-cases (is_over (some mo) c)) [
    | inr room ↦ inl (ground arith)
    | inl over ↦ elim (Bool-cases (any_busy c.is)) [
      | inl busy ↦ inl (ground arith)
      | inr idle ↦ inr (over, idle)
    ]
  ]
