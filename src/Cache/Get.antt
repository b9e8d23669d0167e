-- ===== src/Cache/Get.antt =====
-- skyobject/cache.go: `Get` of a cached, a filling, a wanted and an unknown key.
use cxo.Prelude.{
  Outcome, returns, ◌⊎◌, ite_self, ℕ, suc, ◌<◌, ◌≡◌, refl, ap, sym, subst, ◌∙◌, true, false, [],
  Option, none, some, Error, Result, ok, ite, arith, Option-cases, inl, inr,
}
use cxo.Prelude.Int.{ℤ, pos, ◌-ℤ◌}
use cxo.Cxds.{Val, u32, next_rc}
use cxo.Cxds.Counts.{Fits}
use cxo.Cxds.Memory.{MemoryObject}
use cxo.CxdsApi.{CxdsApi, IsCxds, changed}
use cxo.Cache.Item.{Limits, Item, Cache, beside, is_wanted, is_filling, incr, new_item}
use cxo.Cache.Clean.{any_busy, put_filling_item, put_item}
use cxo.Cache.Access.{bump, hard_rc, get, get_item, get_filling}
use cxo.Cache.Coherent.{IsCoherent, Sound, wanted, filling, regular, logical, IsQuiet}
use cxo.Cache.Reads.{Changes, db_step, incr-next_rc}
use cxo.Cache.Steps.{regular-shown, bump-Changes, fetched-Changes, is_over, put-result}
use mathlib.Core.List.{lookup}

-- The count that fillers hold on a key.
abbrev pub held : {C : Type 0} → Option (Item C) → ℤ
held none = pos 0
held (some it) = it.fc

-- What `Get` has to return, from what is shown: the value with its new count less what fillers
-- hold, beside the result of the room that had to be made for a fetched value.
abbrev pub reply : ℤ → ℤ → Result (Unit {0}) → Option MemoryObject → Outcome (Val × ℤ)
reply fc inc r none = returns ([], pos 0) (some Error.not_found)
reply fc inc r (some mo) = beside (mo.val, pos (next_rc mo.rc inc) -ℤ fc) r

sub_zero : (n : ℕ) → pos n ≡ pos n -ℤ pos 0
unfolding ◌-ℤ◌
sub_zero n = ground arith

module _ {K : Type 0} {a : CxdsApi K} (l : IsCxds a) {C : Type 0} (c0 : Limits) (now : ℕ) where
  -- What `Get` returns, and what it does, against what the cache shows.
  abbrev pub Answers : K → ℤ → Cache a C → Outcome (Val × ℤ) × Cache a C → Type 0
  Answers key inc c out =
      (r : Result (Unit {0})) × (out.0
        ≡ reply (held (lookup a.dec key c.is)) inc r (logical l c key))
      × ((r ≡ ok tt) ⊎ ((is_over l c0 now (logical l c key) c ≡ true) × (any_busy c.is ≡ false)))
      × Changes l key inc c out.1

  get_absent :
      (key : K) (inc : ℤ) (c : Cache a C)
      → IsCoherent l c
      → lookup a.dec key c.is ≡ none
      → Answers key inc c (get c0 now key inc c)
  unfolding get
  get_absent key inc c h e = elim (Option-cases (l.view c.db key)) [
    | inl o ↦ (
      ok tt,
      rw (e, o, get, l.get_lem, o),
      inl refl,
      rw (e, get, l.get_lem, o) (db_step l key inc c h q),
    )
    | inr (mo, o) ↦
        let r =
          (put_item c0 now key mo.val (next_rc mo.rc inc)
            (record c { db = (a.get key inc c.db).1 })).0 in
        (
          r,
          rw (e, o, get, l.get_lem, o)
              (ap (λ (z : ℤ). beside (mo.val, z) r) (sub_zero (next_rc mo.rc inc))),
          rw (e, o)
              (unfold put_item in
                put-result l c0 now key mo (next_rc mo.rc inc) new_item
                  (record c { db = (a.get key inc c.db).1 })),
          rw (e, get, l.get_lem, o)
              (unfold put_item in
                fetched-Changes l c0 now key inc new_item c h (unfold is_wanted in refl) q mo o),
        )
  ]
    where
      q : IsQuiet l key c
      q it x = absurd (ground arith)

  get_item_filling :
      (key : K) (inc : ℤ) (it : Item C) (c : Cache a C)
      → IsCoherent l c
      → lookup a.dec key c.is ≡ some it
      → is_wanted it ≡ false
      → is_filling it ≡ true
      → Answers key inc c (get_filling c0 now key inc it c)
  unfolding get_filling
  get_item_filling key inc it c h e w f = elim (Option-cases (l.view c.db key)) [
    | inl o ↦
        (ok tt, rw (e, f, o, l.get_lem, o), inl refl, rw (l.get_lem, o) (db_step l key inc c h q))
    | inr (mo, o) ↦
        let r =
          (put_filling_item c0 now key mo.val (next_rc mo.rc inc) it
            (record c { db = (a.get key inc c.db).1 })).0 in
        (
          r,
          rw (e, f, o, l.get_lem, o),
          rw (e, f, o)
              (put-result l c0 now key mo (next_rc mo.rc inc) it
                (record c { db = (a.get key inc c.db).1 })),
          rw (l.get_lem, o) (fetched-Changes l c0 now key inc it c h w q mo o),
        )
  ]
    where
      q : IsQuiet l key c
      q i x = let same : it ≡ i = ground arith in rw (← same) f

  get_item_regular :
      (key : K) (inc : ℤ) (it : Item C) (r n : ℕ) (c : Cache a C)
      → IsCoherent l c
      → lookup a.dec key c.is ≡ some it
      → is_wanted it ≡ false
      → is_filling it ≡ false
      → l.view c.db key ≡ some (record { rc = r; val = it.val })
      → it.rc ≡ pos r
      → it.cc ≡ pos (suc n)
      → r < u32
      → suc n < u32
      → Fits (suc n) inc
      → Answers key inc c (returns (it.val, hard_rc inc it) none, bump c0 now inc key it c)
  get_item_regular key inc it r n c h e w f o er em p q fits = (
    ok tt,
    ap (λ (z : ℤ). returns (it.val, z -ℤ it.fc) none)
          (ap (λ (z : ℤ). incr z inc) em ∙ incr-next_rc (suc n) inc fits q)
        ∙ rw (e, f, em),
    inl refl,
    bump-Changes l c0 now key inc it r n c h e w f o er em p q fits,
  )

  pub nothing_changes :
      (key : K) (inc : ℤ) (c : Cache a C)
      → logical l c key ≡ none
      → (j : K) → logical l c j ≡ ite (a.dec key j) (changed inc (logical l c key)) (logical l c j)
  nothing_changes key inc c missing j =
      ite_self (logical l c) (a.dec key j)
      ∙ ap (λ v. ite (a.dec key j) v (logical l c j)) (missing ∙ ap (changed inc) (sym missing))

  get_item-Answers :
      (key : K) (inc : ℤ) (it : Item C) (c : Cache a C)
      → IsCoherent l c
      → ((mo : MemoryObject) → logical l c key ≡ some mo → Fits mo.rc inc)
      → lookup a.dec key c.is ≡ some it
      → Sound it (l.view c.db key)
      → Answers key inc c (get_item c0 now key inc it c)
  unfolding get_item
  get_item-Answers key inc it c h fits e (wanted w f o) =
      let missing : logical l c key ≡ none = rw (e, f, o) in
      let same : (j : K)
          → logical l c j ≡ ite (a.dec key j) (changed inc (logical l c key)) (logical l c j) =
        nothing_changes key inc c missing in
      rw w (ok tt, rw missing, inl refl, record { coherent = h; shows = same })
  get_item-Answers key inc it c h fits e (filling w f) =
      rw (w, f) (get_item_filling key inc it c h e w f)
  get_item-Answers key inc it c h fits e (regular r n w f o er em p q) =
      rw (w, f)
        (get_item_regular key inc it r n c h e w f o er em p q
          (fits _ (regular-shown l c0 now key it (suc n) c e f em)))

  -- Over a CXDS that keeps what its interface promises and does not fail, in a coherent cache, `Get`
  -- returns the value and the count that the cache shows under the key, changed by `inc` and less
  -- what fillers hold, or `ErrNotFound` if it shows none. It returns an error
  -- beside them, or panics, only where the cache has to clean for the object. It keeps the cache
  -- coherent, changes the count that is shown under the key as the CXDS would, and what is shown of
  -- no other key. The condition is that the new count is in the range of a `uint32`.
  pub get_transparent :
      (key : K) (inc : ℤ) (c : Cache a C)
      → IsCoherent l c
      → ((mo : MemoryObject) → logical l c key ≡ some mo → Fits mo.rc inc)
      → Answers key inc c (get c0 now key inc c)
  get_transparent key inc c h fits = elim (Option-cases (lookup a.dec key c.is)) [
    | inl e ↦ get_absent key inc c h e
    | inr (it, e) ↦
        let hit : get c0 now key inc c ≡ get_item c0 now key inc it c = unfold get in rw (e, get) in
        subst (Answers key inc c) (sym hit)
          (get_item-Answers key inc it c h fits e (h.sound key it e))
  ]
