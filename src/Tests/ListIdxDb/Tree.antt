-- ===== src/Tests/ListIdxDb/Tree.antt =====
-- The tree of a database of association lists.
use cxo.Prelude.{
  ℕ, ◌<◌, ◌≡◌, refl, ap, ◌∙◌, List, [], ◌∷◌, Option, none, some, if_pos, if_neg, inl, inr, arith,
  Option-cases, Bool-cases, ltb, ℕ_discrete,
}
use cxo.GoMap.{GoMap, insert, delete, lookup-insert, lookup-delete}
use cxo.IdxDb.{Facts, RootsTree, HeadsTree, IsLast, is_in, is_there, last_of}
use cxo.IdxDb.Laws.{put_heads, put_roots, put_facts, no_heads, no_roots}
use cxo.Tests.ListIdxDb.{
  numbers, Stored, Roots, Heads, Feeds, data_of, heads_at, roots_at, put_roots_at, keys, top,
  listing, end_with,
}
use mathlib.Core.List.{lookup}
use mathlib.Core.Option.{get_or}
use mathlib.Core.Path.{fun_ext}

abbrev pub facts_of : Option Stored → Option (Facts numbers)
facts_of none = none
facts_of (some x) = some (record { time = x.time; prev = x.prev; hash = x.hash; sig = x.sig })

abbrev pub roots_tree : Roots → RootsTree numbers
roots_tree m s = facts_of (lookup ℕ_discrete s m)

abbrev pub some_roots : Option Roots → Option (RootsTree numbers)
some_roots none = none
some_roots (some m) = some (roots_tree m)

abbrev pub heads_tree : Heads → HeadsTree numbers
heads_tree m n = some_roots (lookup ℕ_discrete n m)

abbrev pub some_heads : Option Heads → Option (HeadsTree numbers)
some_heads none = none
some_heads (some m) = some (heads_tree m)

abbrev pub tree : Feeds → ℕ → Option (HeadsTree numbers)
tree db p = some_heads (lookup ℕ_discrete p db)

pub is_in-keys :
    {A : Type 0} (k : ℕ) (m : GoMap ℕ A)
    → is_in ℕ_discrete k (keys m) ≡ is_there (lookup ℕ_discrete k m)
unfolding lookup
is_in-keys k [] = refl
is_in-keys k ((j, x) ∷ m) = ground (arith, is_in-keys k m)

-- A number above the greatest one is not there.
lookup-above : (s : ℕ) (m : Roots) → top m < s → lookup ℕ_discrete s m ≡ none
unfolding lookup top
lookup-above s [] lt = refl
lookup-above s ((k, x) ∷ m) lt = elim (Bool-cases (ltb (top m) k)) [
  | inl b ↦ ground (arith, lookup-above s m (ground arith))
  | inr b ↦ ground (arith, lookup-above s m (ground arith))
]

-- The greatest number is there, or nothing is.
top-zero : (m : Roots) → lookup ℕ_discrete (top m) m ≡ none → top m ≡ 0
unfolding lookup top
top-zero [] e = refl
top-zero ((k, x) ∷ m) e = elim (Bool-cases (ltb (top m) k)) [
  | inl b ↦ absurd (ground arith)
  | inr b ↦ ground (arith, top-zero m (ground arith))
]

lookup-top :
    (m : Roots) → lookup ℕ_discrete (top m) m ≡ none → (s : ℕ) → lookup ℕ_discrete s m ≡ none
unfolding lookup top
lookup-top [] e s = refl
lookup-top ((k, x) ∷ m) e s = elim (Bool-cases (ltb (top m) k)) [
  | inl b ↦ absurd (ground arith)
  | inr b ↦ absurd (ground (arith, top-zero m (ground arith)))
]

last_of-end_with : {A : Type 0} (x : A) (l : List A) → last_of (end_with (x ∷ []) l) ≡ some x
last_of-end_with x [] = refl
last_of-end_with x (y ∷ []) = refl
last_of-end_with x (y ∷ z ∷ l) = last_of-end_with x (z ∷ l)

lookup-map-none : (m : Roots) → ((s : ℕ) → lookup ℕ_discrete s m ≡ none) → m ≡ []
unfolding lookup
lookup-map-none [] h = refl
lookup-map-none ((k, x) ∷ m) h = absurd (ground (arith, h k))

pub listing-IsLast : (m : Roots) → IsLast (last_of (listing m)) (roots_tree m)
listing-IsLast m = elim (Option-cases (lookup ℕ_discrete (top m) m)) [
  | inr (x, e) ↦
      rw (e, last_of-end_with (data_of (top m) x))
        (rw e refl, λ s lt. rw (lookup-above s m lt) refl)
  | inl e ↦ rw (lookup-map-none m (lookup-top m e)) (unfold lookup top delete in λ s. refl)
]

pub roots_tree-insert :
    (s : ℕ) (x : Stored) (m : Roots)
    → roots_tree (insert ℕ_discrete s x m) ≡ put_facts (roots_tree m) s (facts_of (some x))
roots_tree-insert s x m = fun_ext (λ k. rw lookup-insert (elim (ℕ_discrete s k) [
  | yes e ↦ rw (if_pos _ e, if_pos _ e) refl
  | no e ↦ rw (if_neg _ e, if_neg _ e) refl
]))

pub roots_tree-delete :
    (s : ℕ) (m : Roots) → roots_tree (delete ℕ_discrete s m) ≡ put_facts (roots_tree m) s none
roots_tree-delete s m = fun_ext (λ k. rw lookup-delete (elim (ℕ_discrete s k) [
  | yes e ↦ rw (if_pos _ e, if_pos _ e) refl
  | no e ↦ rw (if_neg _ e, if_neg _ e) refl
]))

heads_tree-insert :
    (n : ℕ) (rs : Roots) (m : Heads)
    → heads_tree (insert ℕ_discrete n rs m)
      ≡ put_roots {c = numbers} (heads_tree m) n (some (roots_tree rs))
heads_tree-insert n rs m = fun_ext (λ k. rw lookup-insert (elim (ℕ_discrete n k) [
  | yes e ↦ rw (if_pos _ e, if_pos _ e) refl
  | no e ↦ rw (if_neg _ e, if_neg _ e) refl
]))

pub heads_tree-delete :
    (n : ℕ) (m : Heads)
    → heads_tree (delete ℕ_discrete n m) ≡ put_roots {c = numbers} (heads_tree m) n none
heads_tree-delete n m = fun_ext (λ k. rw lookup-delete (elim (ℕ_discrete n k) [
  | yes e ↦ rw (if_pos _ e, if_pos _ e) refl
  | no e ↦ rw (if_neg _ e, if_neg _ e) refl
]))

pub tree-insert :
    (p q : ℕ) (m : Heads) (db : Feeds)
    → tree (insert ℕ_discrete p m db) q
      ≡ put_heads {c = numbers} (tree db) p (some (heads_tree m)) q
tree-insert p q m db = rw lookup-insert (elim (ℕ_discrete p q) [
  | yes e ↦ rw (if_pos _ e, if_pos _ e) refl
  | no e ↦ rw (if_neg _ e, if_neg _ e) refl
])

pub tree-delete :
    (p q : ℕ) (db : Feeds)
    → tree (delete ℕ_discrete p db) q ≡ put_heads {c = numbers} (tree db) p none q
tree-delete p q db = rw lookup-delete (elim (ℕ_discrete p q) [
  | yes e ↦ rw (if_pos _ e, if_pos _ e) refl
  | no e ↦ rw (if_neg _ e, if_neg _ e) refl
])

-- What is there.
pub heads_tree-at :
    (p : ℕ) (db : Feeds) → heads_tree (heads_at p db) ≡ get_or (tree db p) (no_heads {c = numbers})
unfolding lookup
heads_tree-at p db = elim (Option-cases (lookup ℕ_discrete p db)) [
  | inl e ↦ rw e refl
  | inr (m, e) ↦ rw e refl
]

pub roots_tree-at :
    (p n : ℕ) (db : Feeds)
    → roots_tree (roots_at p n db) ≡ get_or (heads_tree (heads_at p db) n) (no_roots {c = numbers})
unfolding lookup
roots_tree-at p n db = elim (Option-cases (lookup ℕ_discrete n (heads_at p db))) [
  | inl e ↦ rw e refl
  | inr (m, e) ↦ rw e refl
]

pub heads_there :
    (p : ℕ) (db : Feeds) (t : HeadsTree numbers)
    → tree db p ≡ some t
    → heads_tree (heads_at p db) ≡ t
heads_there p db t e = heads_tree-at p db ∙ ap (λ o. get_or o (no_heads {c = numbers})) e

pub roots_there :
    (p n : ℕ) (db : Feeds) (t : HeadsTree numbers) (rs : RootsTree numbers)
    → tree db p ≡ some t
    → t n ≡ some rs
    → roots_tree (roots_at p n db) ≡ rs
roots_there p n db t rs e e' =
    roots_tree-at p n db
    ∙ ap (λ (f : HeadsTree numbers). get_or (f n) (no_roots {c = numbers})) (heads_there p db t e)
    ∙ ap (λ o. get_or o (no_roots {c = numbers})) e'

tree-put_roots :
    (p q n : ℕ) (rs : Roots) (db : Feeds)
    → tree (put_roots_at p n rs db) q
      ≡ put_heads
          (tree db)
          p
          (some (put_roots (heads_tree (heads_at p db)) n (some (roots_tree rs))))
          q
tree-put_roots p q n rs db =
    tree-insert p q (insert ℕ_discrete n rs (heads_at p db)) db
    ∙ ap (λ t. put_heads {c = numbers} (tree db) p (some t) q)
        (heads_tree-insert n rs (heads_at p db))

-- The Root objects of a head that is there are set to what the tree has.
pub tree-put_there :
    (p q n : ℕ) (rs : Roots) (db : Feeds) (t : HeadsTree numbers) (x : RootsTree numbers)
    → tree db p ≡ some t
    → roots_tree rs ≡ x
    → tree (put_roots_at p n rs db) q ≡ put_heads (tree db) p (some (put_roots t n (some x))) q
tree-put_there p q n rs db t x e e' =
    tree-put_roots p q n rs db
    ∙ ap
        (λ (f : HeadsTree numbers).
          put_heads (tree db) p (some (put_roots f n (some (roots_tree rs)))) q)
        (heads_there p db t e)
    ∙ ap (λ y. put_heads (tree db) p (some (put_roots t n (some y))) q) e'
