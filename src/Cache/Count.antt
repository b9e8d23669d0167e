-- ===== src/Cache/Count.antt =====
-- skyobject/cache.go: `Inc` of a key that the cache has an item of.
use cxo.Prelude.{
  Outcome, returns, ℕ, suc, ◌<◌, ◌≡◌, refl, ap, sym, subst, ◌∙◌, true, false, Option, none, some,
  Error, Result, ok, Option-cases, inl, inr, ◌⊎◌, arith, ite,
}
use cxo.Prelude.Int.{ℤ, pos, ◌-ℤ◌}
use cxo.Cxds.{u32, next_rc}
use cxo.Cxds.Counts.{Fits}
use cxo.Cxds.Memory.{MemoryObject}
use cxo.CxdsApi.{CxdsApi, IsCxds, changed}
use cxo.Cache.Item.{Limits, Item, Cache, beside, is_wanted, is_filling, incr}
use cxo.Cache.Clean.{any_busy, put_filling_item}
use cxo.Cache.Access.{bump, hard_rc, fetch, inc_rc, inc_item, inc_filling}
use cxo.Cache.Coherent.{IsCoherent, Sound, wanted, filling, regular, logical, IsQuiet}
use cxo.Cache.Reads.{Changes, db_step, incr-next_rc}
use cxo.Cache.Steps.{regular-shown, bump-Changes, fetched-Changes, is_over, put-result}
use cxo.Cache.Get.{held, nothing_changes}
use mathlib.Core.List.{lookup}

-- What `Inc` has to return, from what is shown: the new count less what fillers hold, beside the
-- result of the room that had to be made for a fetched value.
abbrev pub count_reply : ℤ → ℤ → Result (Unit {0}) → Option MemoryObject → Outcome ℤ
count_reply fc inc r none = returns (pos 0) (some Error.not_found)
count_reply fc inc r (some mo) = beside (pos (next_rc mo.rc inc) -ℤ fc) r

fetch_on :
    {K : Type 0} (a : CxdsApi K) (c0 : Limits) (key : K) (inc : ℤ) (db : a.Db)
    → c0.enable ≡ true
    → fetch a c0 key inc db ≡ a.get key inc db
unfolding fetch
fetch_on a c0 key inc db on = rw on

module _ {K : Type 0} {a : CxdsApi K} (l : IsCxds a) {C : Type 0} (c0 : Limits) (now : ℕ) where
  -- What `Inc` returns, and what it does, against what the cache shows.
  abbrev pub Counts : K → ℤ → Cache a C → Outcome ℤ × Cache a C → Type 0
  Counts key inc c out =
      (r : Result (Unit {0})) × (out.0
        ≡ count_reply (held (lookup a.dec key c.is)) inc r (logical l c key))
      × ((r ≡ ok tt) ⊎ ((is_over l c0 now (logical l c key) c ≡ true) × (any_busy c.is ≡ false)))
      × Changes l key inc c out.1

  filling-Counts :
      (key : K) (inc : ℤ) (it : Item C) (c : Cache a C)
      → c0.enable ≡ true
      → IsCoherent l c
      → lookup a.dec key c.is ≡ some it
      → is_wanted it ≡ false
      → is_filling it ≡ true
      → Counts key inc c (inc_filling c0 now key inc it c)
  unfolding inc_filling
  filling-Counts key inc it c on h e w f = elim (Option-cases (l.view c.db key)) [
    | inl o ↦ (
      ok tt,
      rw (e, f, o, inc_filling, fetch_on a c0 key inc c.db on, l.get_lem, o),
      inl refl,
      rw (fetch_on a c0 key inc c.db on, l.get_lem, o) (db_step l key inc c h q),
    )
    | inr (mo, o) ↦
        let c' : Cache a C = record c { db = (a.get key inc c.db).1 } in
        let r = (put_filling_item c0 now key mo.val (next_rc mo.rc inc) it c').0 in
        (
          r,
          rw (e, f, o, inc_filling, fetch_on a c0 key inc c.db on, l.get_lem, o),
          rw (e, f, o) (put-result l c0 now key mo (next_rc mo.rc inc) it c'),
          rw (fetch_on a c0 key inc c.db on, l.get_lem, o)
              (fetched-Changes l c0 now key inc it c h w q mo o),
        )
  ]
    where
      q : IsQuiet l key c
      q i x = let same : it ≡ i = ground arith in rw (← same) f

  regular-Counts :
      (key : K) (inc : ℤ) (it : Item C) (r n : ℕ) (c : Cache a C)
      → IsCoherent l c
      → lookup a.dec key c.is ≡ some it
      → is_wanted it ≡ false
      → is_filling it ≡ false
      → l.view c.db key ≡ some (record { rc = r; val = it.val })
      → it.rc ≡ pos r
      → it.cc ≡ pos (suc n)
      → r < u32
      → suc n < u32
      → Fits (suc n) inc
      → Counts key inc c (returns (hard_rc inc it) none, bump c0 now inc key it c)
  regular-Counts key inc it r n c h e w f o er em p q fits = (
    ok tt,
    ap (λ (z : ℤ). returns (z -ℤ it.fc) none)
          (ap (λ (z : ℤ). incr z inc) em ∙ incr-next_rc (suc n) inc fits q)
        ∙ rw (e, f, em),
    inl refl,
    bump-Changes l c0 now key inc it r n c h e w f o er em p q fits,
  )

  item-Counts :
      (key : K) (inc : ℤ) (it : Item C) (c : Cache a C)
      → c0.enable ≡ true
      → IsCoherent l c
      → ((mo : MemoryObject) → logical l c key ≡ some mo → Fits mo.rc inc)
      → lookup a.dec key c.is ≡ some it
      → Sound it (l.view c.db key)
      → Counts key inc c (inc_item c0 now key inc it c)
  unfolding inc_item
  item-Counts key inc it c on h fits e (wanted w f o) =
      let missing : logical l c key ≡ none = rw (e, f, o) in
      let same : (j : K)
          → logical l c j ≡ ite (a.dec key j) (changed inc (logical l c key)) (logical l c j) =
        nothing_changes l c0 now key inc c missing in
      rw w (ok tt, rw missing, inl refl, record { coherent = h; shows = same })
  item-Counts key inc it c on h fits e (filling w f) =
      rw (w, f) (filling-Counts key inc it c on h e w f)
  item-Counts key inc it c on h fits e (regular r n w f o er em p q) =
      rw (w, f)
        (regular-Counts key inc it r n c h e w f o er em p q
          (fits _ (regular-shown l c0 now key it (suc n) c e f em)))

  -- Over a CXDS that keeps what its interface promises and does not fail, in a coherent cache that is
  -- enabled and has an item of the key, `Inc` returns the count that the cache shows under the key, changed by `inc` and less what fillers hold, or `ErrNotFound` if it
  -- shows none. It returns an error beside it, or panics, only where the cache has to clean for the
  -- object. It keeps the cache coherent, changes the count that is shown under the key as the CXDS
  -- would, and what is shown of no other key. The new count is to be in the range of a `uint32`.
  pub inc_transparent :
      (key : K) (inc : ℤ) (it : Item C) (c : Cache a C)
      → c0.enable ≡ true
      → IsCoherent l c
      → lookup a.dec key c.is ≡ some it
      → ((mo : MemoryObject) → logical l c key ≡ some mo → Fits mo.rc inc)
      → Counts key inc c (inc_rc c0 now key inc c)
  inc_transparent key inc it c on h e fits =
      let hit : inc_rc c0 now key inc c ≡ inc_item c0 now key inc it c =
        unfold inc_rc in rw (e, inc_rc) in
      subst (Counts key inc c) (sym hit) (item-Counts key inc it c on h fits e (h.sound key it e))
