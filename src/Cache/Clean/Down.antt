-- ===== src/Cache/Clean/Down.antt =====
-- skyobject/cache.go: `cleanDown` as a whole. Its rank holds the items of the cache, and a single
-- wanted or filling item stops it.
use cxo.Prelude.{
  ℕ, ◌≡◌, refl, true, false, [], ◌∷◌, List, none, some, ok, leb, arith, Bool-cases, inl, inr, ◌||◌,
}
use cxo.Prelude.Int.{pos, ltb_ℤ, ◌+ℤ◌}
use cxo.GoMap.{GoMap, Distinct}
use cxo.CxdsApi.{CxdsApi, IsCxds}
use cxo.Cache.Item.{Limits, Item, Cache, is_wanted, is_filling}
use cxo.Cache.Clean.{any_busy, insert_ranked, rank, clean_down, make_room}
use cxo.Cache.Clean.Keeps.{Keeps, Keeps-refl, Ranked, clean_ranked-Keeps}
use cxo.Cache.Coherent.{IsCoherent}
use mathlib.Core.List.{lookup}

module _ {K : Type 0} {a : CxdsApi K} (l : IsCxds a) {C : Type 0} where
  -- The rank of a cache with no busy item has the items of the cache.
  lookup-insert_ranked :
      (j k : K) (it : Item C) (r : List (K × Item C))
      → lookup a.dec j ((k, it) ∷ r) ≡ none
      → lookup a.dec j (insert_ranked (k, it) r) ≡ none
  unfolding lookup insert_ranked
  lookup-insert_ranked j k it [] h = h
  lookup-insert_ranked j k it ((i, x) ∷ r) h = ground (arith, lookup-insert_ranked j k it r)

  insert_ranked-Ranked :
      (k : K) (it : Item C) (r : List (K × Item C)) (c : Cache a C)
      → Ranked l ((k, it) ∷ r) c
      → Ranked l (insert_ranked (k, it) r) c
  unfolding lookup insert_ranked
  insert_ranked-Ranked k it [] c g = g
  insert_ranked-Ranked k it ((i, x) ∷ r) c (e, w, f, n, (e', w', f', n', g)) =
      elim (Bool-cases (leb it.points x.points)) [
        | inl low ↦ rw low (e, w, f, n, (e', w', f', n', g))
        | inr high ↦ rw high (
          e',
          w',
          f',
          lookup-insert_ranked i k it r (ground arith),
          insert_ranked-Ranked k it r c (e, w, f, ground arith, g),
        )
      ]

  lookup-rank :
      (j : K) (m : GoMap K (Item C)) → lookup a.dec j m ≡ none → lookup a.dec j (rank m) ≡ none
  unfolding rank lookup
  lookup-rank j [] h = refl
  lookup-rank j ((k, it) ∷ m) h =
      lookup-insert_ranked j k it (rank m) (ground (arith, lookup-rank j m))

  -- Each entry of a part of the map is in the cache.
  Found : GoMap K (Item C) → Cache a C → Type 0
  Found [] c = Unit
  Found ((k, it) ∷ m) c = (lookup a.dec k c.is ≡ some it) × Found m c

  Found-self : (m : GoMap K (Item C)) (c : Cache a C) → Distinct a.dec m → c.is ≡ m → Found m c
  unfolding Found
  Found-self m c d e = go m d (λ j it h. rw e h)
    where
      go :
          (r : GoMap K (Item C))
          → Distinct a.dec r
          → ((j : K) (it : Item C) → lookup a.dec j r ≡ some it → lookup a.dec j c.is ≡ some it)
          → Found r c
      go [] d f = tt
      go ((k, it) ∷ r) (n, d) f = (
        f k it (unfold lookup in ground arith),
        go r d (λ j i h. f j i (unfold lookup in ground arith)),
      )

  rank-Ranked :
      (m : GoMap K (Item C)) (c : Cache a C)
      → Distinct a.dec m
      → Found m c
      → any_busy m ≡ false
      → Ranked l (rank m) c
  unfolding rank Found any_busy
  rank-Ranked [] c d f b = tt
  rank-Ranked ((k, it) ∷ m) c (n, d) (e, f) b =
      insert_ranked-Ranked k it (rank m) c
        (e, ground arith, ground arith, lookup-rank k m n, rank-Ranked m c d f (ground arith))

  -- Cleaning down a coherent cache, whether it succeeds or panics, keeps it coherent, changes
  -- nothing that it shows of any key, and disturbs no key that is quiet.
  pub clean_down-Keeps :
      (c0 : Limits) (vol : ℕ) (c : Cache a C) → IsCoherent l c → Keeps l c (clean_down c0 vol c).1
  unfolding clean_down
  clean_down-Keeps c0 vol c h = elim (Bool-cases (any_busy c.is)) [
    | inl busy ↦ rw busy (Keeps-refl l c h)
    | inr idle ↦ rw idle (
        clean_ranked-Keeps l c0 vol (rank c.is) c h
          (rank-Ranked c.is c h.distinct (Found-self c.is c h.distinct refl) idle))
  ]

  pub make_room-Keeps :
      (c0 : Limits) (vol : ℕ) (c : Cache a C) → IsCoherent l c → Keeps l c (make_room c0 vol c).1
  unfolding make_room
  make_room-Keeps c0 vol c h =
      elim (Bool-cases (
        ltb_ℤ (pos c0.max_amount) (c.amount +ℤ pos 1)
        || ltb_ℤ (pos c0.max_volume) (c.volume +ℤ pos vol))) [
          | inl over ↦ rw over (clean_down-Keeps c0 vol c h)
          | inr room ↦ rw room (Keeps-refl l c h)
        ]

  any_busy-found :
      (m : GoMap K (Item C)) (key : K) (it : Item C)
      → lookup a.dec key m ≡ some it
      → (is_wanted it || is_filling it) ≡ true
      → any_busy m ≡ true
  unfolding any_busy lookup
  any_busy-found [] key it h b = ground arith
  any_busy-found ((k, x) ∷ m) key it h b = ground (arith, any_busy-found m key it)

  -- With a wanted or filling item in the cache, cleaning down does nothing at all.
  pub clean_down_busy :
      (c0 : Limits) (vol : ℕ) (c : Cache a C) (key : K) (it : Item C)
      → lookup a.dec key c.is ≡ some it
      → (is_wanted it || is_filling it) ≡ true
      → clean_down c0 vol c ≡ (ok tt, c)
  unfolding clean_down
  clean_down_busy c0 vol c key it h b = rw (any_busy-found c.is key it h b)
