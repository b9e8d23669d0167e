-- ===== src/Cache/Clean/Keeps.antt =====
-- skyobject/cache.go: cleaning the cache changes nothing that the cache shows.
use cxo.Prelude.{
  ℕ, suc, ◌≡◌, refl, ◌∙◌, false, [], ◌∷◌, List, Option, none, some, ok, ite, if_pos, if_neg, arith,
  Bool-cases, inl, inr, map, ◌⊎◌,
}
use cxo.Prelude.Int.{pos, ltb_ℤ, leb_ℤ, ◌+ℤ◌}
use cxo.CxdsApi.{CxdsApi, IsCxds}
use cxo.Cache.Item.{Limits, Item, Cache, is_wanted, is_filling, delete_item}
use cxo.Cache.Clean.{present, last_gone, clean_amount, clean_volume, then_volume, clean_ranked}
use cxo.Cache.Coherent.{
  IsCoherent, Sound, wanted, filling, regular, logical, IsQuiet, delete_item_lem, remains,
}
use mathlib.Core.List.{lookup}

module _ {K : Type 0} {a : CxdsApi K} (l : IsCxds a) {C : Type 0} where
  -- A step that no reader of the cache can notice.
  pub record Keeps (c c' : Cache a C) : Type 0 where
    pub coherent : IsCoherent l c'
    pub shows : (j : K) → logical l c' j ≡ logical l c j
    pub quiet : (j : K) → IsQuiet l j c → IsQuiet l j c'

  pub Keeps-refl : (c : Cache a C) → IsCoherent l c → Keeps c c
  Keeps-refl c h = record { coherent = h; shows = λ j. refl; quiet = λ j q. q }

  pub Keeps-trans : (c c' c'' : Cache a C) → Keeps c c' → Keeps c' c'' → Keeps c c''
  Keeps-trans c c' c'' k k' = record {
    coherent = k'.coherent;
    shows = λ j. k'.shows j ∙ k.shows j;
    quiet = λ j q. k'.quiet j (k.quiet j q);
  }

  -- The entries of a rank: items of the cache that have a value, each key once.
  abbrev pub Ranked : List (K × Item C) → Cache a C → Type 0
  Ranked [] c = Unit
  Ranked ((k, it) ∷ r) c =
      (lookup a.dec k c.is ≡ some it)
      × (is_wanted it ≡ false)
      × (is_filling it ≡ false)
      × (lookup a.dec k r ≡ none)
      × Ranked r c

  -- The deletion of a cached item.
  delete_item-Keeps :
      (key : K) (it : Item C) (c : Cache a C)
      → IsCoherent l c
      → lookup a.dec key c.is ≡ some it
      → is_filling it ≡ false
      → ((delete_item key it c).0 ≡ ok tt)
        × Keeps c (delete_item key it c).1
        × ((j : K)
            → lookup a.dec j (delete_item key it c).1.is
              ≡ ite (a.dec key j) (remains l it) (lookup a.dec j c.is))
  delete_item-Keeps key it c h e f = go (h.sound key it e)
    where
      go :
          Sound it (l.view c.db key)
          → ((delete_item key it c).0 ≡ ok tt)
            × Keeps c (delete_item key it c).1
            × ((j : K)
                → lookup a.dec j (delete_item key it c).1.is
                  ≡ ite (a.dec key j) (remains l it) (lookup a.dec j c.is))
      go (wanted w f' o) = absurd (ground arith)
      go (filling w f') = absurd (ground arith)
      go (regular r n w f' o er em p q) =
          let (done, h', shows, quiet, items) =
            delete_item_lem l key it r (suc n) c h w o er em p q in
          (
            done,
            record {
              coherent = h';
              shows = λ j. shows j ∙ elim (a.dec key j) [
                | yes p ↦ rw (if_pos _ p, ← p, e, f, em) refl
                | no p ↦ rw (if_neg _ p) refl
              ];
              quiet = quiet;
            },
            items,
          )

  Ranked-step :
      (key : K) (it : Item C) (r : List (K × Item C)) (c c' : Cache a C)
      → ((j : K) → lookup a.dec j c'.is ≡ ite (a.dec key j) (remains l it) (lookup a.dec j c.is))
      → lookup a.dec key r ≡ none
      → Ranked r c
      → Ranked r c'
  unfolding lookup
  Ranked-step key it [] c c' s n g = tt
  Ranked-step key it ((k, i) ∷ r) c c' s n (e, w, f, u, g) =
      ground (arith, s k, Ranked-step key it r c c' s)

  -- What the loop by amount leaves for the loop by volume: the untouched part of the rank, or one
  -- pointer that is gone.
  Rest : List (K × Option (Item C)) → Cache a C → Type 0
  Rest rest c =
      ((r : List (K × Item C)) × (rest ≡ map present r) × Ranked r c)
      ⊎ ((last : Option K) × (rest ≡ last_gone last))

  module _ (c0 : Limits) where
    clean_amount-Keeps :
        (last : Option K) (r : List (K × Item C)) (c : Cache a C)
        → IsCoherent l c
        → Ranked r c
        → (rest : List (K × Option (Item C))) × (c' : Cache a C) × (clean_amount c0 last r c
            ≡ (ok rest, c'))
          × Keeps c c'
          × Rest rest c'
    unfolding clean_amount Rest
    clean_amount-Keeps last [] c h g = (last_gone last, c, refl, Keeps-refl c h, inr (last, refl))
    clean_amount-Keeps last ((key, it) ∷ r) c h (e, w, f, n, g) =
        elim (Bool-cases (ltb_ℤ c.amount (pos c0.amount_low))) [
          | inl low ↦ rw low (
            map present ((key, it) ∷ r),
            c,
            refl,
            Keeps-refl c h,
            inl ((key, it) ∷ r, refl, (e, w, f, n, g)),
          )
          | inr high ↦
              let (done, k, items) = delete_item-Keeps key it c h e f in
              let (rest, c', out, k', left) =
                clean_amount-Keeps (some key) r (delete_item key it c).1 k.coherent
                  (Ranked-step key it r c (delete_item key it c).1 items n g) in
              rw (high, done) (rest, c', out, Keeps-trans c _ c' k k', left)
        ]

    clean_volume-Keeps :
        (vol : ℕ) (r : List (K × Item C)) (c : Cache a C)
        → IsCoherent l c
        → Ranked r c
        → Keeps c (clean_volume c0 vol (map present r) c).1
    unfolding clean_volume
    clean_volume-Keeps vol [] c h g = Keeps-refl c h
    clean_volume-Keeps vol ((key, it) ∷ r) c h (e, w, f, n, g) =
        elim (Bool-cases (leb_ℤ (c.volume +ℤ pos vol) (pos c0.volume_low))) [
          | inl low ↦ rw low (Keeps-refl c h)
          | inr high ↦
              let (done, k, items) = delete_item-Keeps key it c h e f in
              rw (high, done)
                (Keeps-trans c (delete_item key it c).1 _ k (
                  clean_volume-Keeps vol r (delete_item key it c).1 k.coherent
                    (Ranked-step key it r c (delete_item key it c).1 items n g)))
        ]

    then_volume-Keeps :
        (vol : ℕ) (rest : List (K × Option (Item C))) (c : Cache a C)
        → IsCoherent l c
        → Rest rest c
        → Keeps c (then_volume c0 vol (ok rest, c)).1
    unfolding then_volume Rest
    then_volume-Keeps vol rest c h s =
        elim (Bool-cases (ltb_ℤ (c.volume +ℤ pos vol) (pos c0.max_volume))) [
          | inl enough ↦ rw enough (Keeps-refl c h)
          | inr more ↦ rw more (elim s [
            | inl (r, e, g) ↦ rw e (clean_volume-Keeps vol r c h g)
            | inr (last, e) ↦ rw e (gone last)
          ])
        ]
      where
        gone : (last : Option K) → Keeps c (clean_volume c0 vol (last_gone last) c).1
        gone none = Keeps-refl c h
        gone (some k) = elim (Bool-cases (leb_ℤ (c.volume +ℤ pos vol) (pos c0.volume_low))) [
          | inl low ↦ rw low (Keeps-refl c h)
          | inr high ↦ rw high (Keeps-refl c h)
        ]

    pub clean_ranked-Keeps :
        (vol : ℕ) (r : List (K × Item C)) (c : Cache a C)
        → IsCoherent l c
        → Ranked r c
        → Keeps c (clean_ranked c0 vol r c).1
    unfolding clean_ranked
    clean_ranked-Keeps vol r c h g =
        elim (Bool-cases (ltb_ℤ (pos c0.max_amount) (c.amount +ℤ pos 1))) [
          | inl over ↦
              let (rest, c', out, k, left) = clean_amount-Keeps none r c h g in
              rw (over, out) (Keeps-trans c c' _ k (then_volume-Keeps vol rest c' k.coherent left))
          | inr room ↦
              rw room (then_volume-Keeps vol (map present r) c h (unfold Rest in inl (r, refl, g)))
        ]
