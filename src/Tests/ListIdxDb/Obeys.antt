-- ===== src/Tests/ListIdxDb/Obeys.antt =====
-- The database of association lists does what an index database promises.
use cxo.Prelude.{
  ℕ, ◌≡◌, refl, sym, ap, ◌∙◌, subst, Option, none, some, Error, ok, err, if_pos, if_neg, inl, inr,
  arith, Option-cases, ℕ_discrete,
}
use cxo.Prelude.Int.{ℤ}
use cxo.GoMap.{insert, delete}
use cxo.Data.{DataRoot}
use cxo.IdxDb.{Facts, facts, RootsTree, HeadsTree, IsLast, is_there, last_of}
use cxo.IdxDb.Laws.{IsIdxDb, opens, put_heads, put_roots, put_facts, no_roots}
use cxo.Tests.ListIdxDb.{
  numbers, Stored, Roots, Heads, Feeds, data_of, stored_of, heads_at, roots_at, listing, got,
  set_over, list_idx_db,
}
use cxo.Tests.ListIdxDb.Tree.{
  facts_of, roots_tree, some_roots, heads_tree, some_heads, tree, is_in-keys, listing-IsLast,
  roots_tree-insert, roots_tree-delete, heads_tree-delete, tree-insert, tree-delete, heads_tree-at,
  roots_tree-at, heads_there, roots_there, tree-put_there,
}
use mathlib.Core.List.{lookup}
use mathlib.Core.Option.{get_or}
use mathlib.Core.Path.{fun_ext}

is_there-some_heads : (o : Option Heads) → is_there o ≡ is_there (some_heads o)
is_there-some_heads none = refl
is_there-some_heads (some m) = refl

is_there-some_roots : (o : Option Roots) → is_there o ≡ is_there (some_roots o)
is_there-some_roots none = refl
is_there-some_roots (some m) = refl

is_there-facts_of : (o : Option Stored) → is_there o ≡ is_there (facts_of o)
is_there-facts_of none = refl
is_there-facts_of (some x) = refl

opens-some_heads :
    (o : Option Heads) → opens Error.no_such_feed o ≡ opens Error.no_such_feed (some_heads o)
opens-some_heads none = refl
opens-some_heads (some m) = refl

opens-some_roots :
    (o : Option Roots) → opens Error.no_such_head o ≡ opens Error.no_such_head (some_roots o)
opens-some_roots none = refl
opens-some_roots (some m) = refl

-- Facts that are there already are put there again.
put_facts-same :
    (rs : RootsTree numbers) (s : ℕ) (o : Option (Facts numbers)) → rs s ≡ o → put_facts rs s o ≡ rs
put_facts-same rs s o e = fun_ext (λ k. elim (ℕ_discrete s k) [
  | yes y ↦ if_pos (ℕ_discrete s k) y _ _ ∙ sym e ∙ ap rs y
  | no y ↦ if_neg (ℕ_discrete s k) y _ _
])

put_roots-same :
    (t : HeadsTree numbers) (n : ℕ) (o : Option (RootsTree numbers)) → t n ≡ o → put_roots t n o ≡ t
put_roots-same t n o e = fun_ext (λ k. elim (ℕ_discrete n k) [
  | yes y ↦ if_pos (ℕ_discrete n k) y _ _ ∙ sym e ∙ ap t y
  | no y ↦ if_neg (ℕ_discrete n k) y _ _
])

put_heads-same :
    (f : ℕ → Option (HeadsTree numbers)) (p q : ℕ) (o : Option (HeadsTree numbers))
    → f p ≡ o
    → put_heads f p o q ≡ f q
put_heads-same f p q o e = elim (ℕ_discrete p q) [
  | yes y ↦ if_pos (ℕ_discrete p q) y _ _ ∙ sym e ∙ ap f y
  | no y ↦ if_neg (ℕ_discrete p q) y _ _
]

-- A Root that is there stands in a feed and a head that are there.
stored_there :
    (p n s : ℕ) (x : Stored) (db : Feeds)
    → lookup ℕ_discrete s (roots_at p n db) ≡ some x
    → (t : HeadsTree numbers) × (tree db p ≡ some t) × (t n ≡ some (roots_tree (roots_at p n db)))
unfolding lookup
stored_there p n s x db e = elim (Option-cases (lookup ℕ_discrete p db)) [
  | inl f ↦
      let bad : lookup ℕ_discrete s (roots_at p n db) ≡ none = rw f refl in absurd (ground arith)
  | inr (m, f) ↦ elim (Option-cases (lookup ℕ_discrete n m)) [
    | inl g ↦
        let bad : lookup ℕ_discrete s (roots_at p n db) ≡ none = rw (f, g) refl in
        absurd (ground arith)
    | inr (rs, g) ↦ (heads_tree m, rw f refl, rw (f, g) refl)
  ]
]

tree-got :
    (p q n s : ℕ) (now : ℤ) (db : Feeds) (o : Option Stored)
    → lookup ℕ_discrete s (roots_at p n db) ≡ o
    → tree (got p n s now db o).1 q ≡ tree db q
tree-got p q n s now db none e = refl
tree-got p q n s now db (some x) e =
    let (t, there, here) = stored_there p n s x db e in
    let m = roots_at p n db in
    let same : roots_tree (insert ℕ_discrete s (record x { access = now }) m) ≡ roots_tree m =
      roots_tree-insert s (record x { access = now }) m
      ∙ put_facts-same (roots_tree m) s (facts_of (some x)) (ap facts_of e) in
    tree-put_there p q n (insert ℕ_discrete s (record x { access = now }) m) db t (roots_tree m)
      there same
    ∙ ap (λ y. put_heads (tree db) p (some y) q) (put_roots-same t n (some (roots_tree m)) here)
    ∙ put_heads-same (tree db) p q (some t) there

-- What is put over facts that are there is what is there.
put_over :
    (s n p : ℕ) (r : DataRoot numbers) (x : Stored) (db : Feeds) (t : HeadsTree numbers)
    (rs : RootsTree numbers) (o : Option Stored)
    → tree db p ≡ some t
    → t n ≡ some rs
    → lookup ℕ_discrete s (roots_at p n db) ≡ o
    → facts_of (some x) ≡ some (get_or (facts_of o) (facts r))
    → roots_tree (insert ℕ_discrete s x (roots_at p n db))
      ≡ put_facts rs s (some (get_or (rs s) (facts r)))
put_over s n p r x db t rs o there here e f =
    let same : roots_tree (roots_at p n db) ≡ rs = roots_there p n db t rs there here in
    let seen : facts_of o ≡ rs s = sym (ap facts_of e) ∙ ap (λ y. y s) same in
    roots_tree-insert s x (roots_at p n db)
    ∙ ap (λ (y : RootsTree numbers). put_facts y s (facts_of (some x))) same
    ∙ ap (put_facts rs s) (f ∙ ap (λ z. some (get_or z (facts r))) seen)

tree-set_over :
    (p q n : ℕ) (r : DataRoot numbers) (now : ℤ) (db : Feeds) (t : HeadsTree numbers)
    (rs : RootsTree numbers) (o : Option Stored)
    → tree db p ≡ some t
    → t n ≡ some rs
    → lookup ℕ_discrete r.seq (roots_at p n db) ≡ o
    → tree (set_over p n r now db o).1 q
      ≡ put_heads
          (tree db)
          p
          (some (put_roots t n (some (put_facts rs r.seq (some (get_or (rs r.seq) (facts r)))))))
          q
tree-set_over p q n r now db t rs none there here e =
    tree-put_there p q n _ db t _ there
      (put_over r.seq n p r (stored_of r now) db t rs none there here e refl)
tree-set_over p q n r now db t rs (some x) there here e =
    tree-put_there p q n _ db t _ there
      (put_over r.seq n p r (record x { access = now }) db t rs (some x) there here e refl)

set_over-same :
    (p n : ℕ) (r r' : DataRoot numbers) (now : ℤ) (db : Feeds) (o : Option Stored)
    → (set_over p n r now db o).0 ≡ ok r'
    → (r'.seq ≡ r.seq) × (facts r' ≡ facts r)
set_over-same p n r r' now db none e =
    let same : record r { create = now; access = now } ≡ r' = cc in
    subst (λ (y : DataRoot numbers). (y.seq ≡ r.seq) × (facts y ≡ facts r)) same (refl, refl)
set_over-same p n r r' now db (some x) e =
    let same : record r { create = x.create; access = x.access } ≡ r' = cc in
    subst (λ (y : DataRoot numbers). (y.seq ≡ r.seq) × (facts y ≡ facts r)) same (refl, refl)

got-found :
    (p n s : ℕ) (now : ℤ) (r : DataRoot numbers) (db : Feeds) (o : Option Stored)
    → (got p n s now db o).0 ≡ ok r
    → (r.seq ≡ s) × (facts_of o ≡ some (facts r))
got-found p n s now r db none e = absurd (ground arith)
got-found p n s now r db (some x) e =
    let same : data_of s x ≡ r = cc in
    subst (λ (y : DataRoot numbers). (y.seq ≡ s) × (facts_of (some x) ≡ some (facts y))) same
      (refl, refl)

-- Facts that are not there are not stored.
got-missing :
    (p n s : ℕ) (now : ℤ) (db : Feeds) (o : Option Stored)
    → facts_of o ≡ none
    → (got p n s now db o).0 ≡ err Error.not_found
got-missing p n s now db none e = refl
got-missing p n s now db (some x) e = absurd (ground arith)

seen :
    (p n s : ℕ) (db : Feeds) (t : HeadsTree numbers) (rs : RootsTree numbers)
    → tree db p ≡ some t
    → t n ≡ some rs
    → facts_of (lookup ℕ_discrete s (roots_at p n db)) ≡ rs s
seen p n s db t rs there here =
    ap (λ (y : RootsTree numbers). y s) (roots_there p n db t rs there here)

heads_seen :
    (p n : ℕ) (db : Feeds) (t : HeadsTree numbers)
    → tree db p ≡ some t
    → some_roots (lookup ℕ_discrete n (heads_at p db)) ≡ t n
heads_seen p n db t there = ap (λ (f : HeadsTree numbers). f n) (heads_there p db t there)

list_idx_db-IsIdxDb : IsIdxDb list_idx_db
list_idx_db-IsIdxDb = record {
  tree = tree;
  feeds_lem = λ p db. is_in-keys p db ∙ is_there-some_heads (lookup ℕ_discrete p db);
  heads_lem = λ p n db t there.
      is_in-keys n (heads_at p db)
      ∙ is_there-some_roots (lookup ℕ_discrete n (heads_at p db))
      ∙ ap is_there (heads_seen p n db t there);
  roots_lem = λ p n db t rs there here.
      subst (IsLast (last_of (listing (roots_at p n db)))) (roots_there p n db t rs there here)
        (listing-IsLast (roots_at p n db));
  open_heads_lem = λ p db. opens-some_heads (lookup ℕ_discrete p db);
  open_roots_lem = λ p n db t there.
      opens-some_roots (lookup ℕ_discrete n (heads_at p db))
      ∙ ap (opens Error.no_such_head) (heads_seen p n db t there);
  tree-add_feed = λ p q db okay.
      tree-insert p q (heads_at p db) db
      ∙ ap (λ (t : HeadsTree numbers). put_heads (tree db) p (some t) q) (heads_tree-at p db);
  tree-del_feed = λ p q db okay. tree-delete p q db;
  tree-add_head = λ p q n db t there okay. tree-put_there p q n (roots_at p n db) db t _ there (
      roots_tree-at p n db
      ∙ ap (λ (o : Option (RootsTree numbers)). get_or o no_roots) (heads_seen p n db t there));
  tree-del_head = λ p q n db t there okay.
      tree-insert p q (delete ℕ_discrete n (heads_at p db)) db
      ∙ ap (λ (y : HeadsTree numbers). put_heads (tree db) p (some y) q)
          (heads_tree-delete n (heads_at p db)
            ∙ ap (λ (f : HeadsTree numbers). put_roots f n none) (heads_there p db t there));
  has_root_lem = λ p n s db t rs there here. ap ok (
      is_there-facts_of (lookup ℕ_discrete s (roots_at p n db))
      ∙ ap is_there (seen p n s db t rs there here));
  get_root_missing = λ p n s now db t rs there here gone.
      got-missing p n s now db (lookup ℕ_discrete s (roots_at p n db))
        (seen p n s db t rs there here ∙ gone);
  get_root_found = λ p n s now db t rs r there here okay.
      let (same, found) = got-found p n s now r db (lookup ℕ_discrete s (roots_at p n db)) okay in
      (same, sym (seen p n s db t rs there here) ∙ found);
  tree-get_root =
      λ p q n s now db. tree-got p q n s now db (lookup ℕ_discrete s (roots_at p n db)) refl;
  tree-set_root = λ p q n r r' now db t rs there here okay.
      tree-set_over p q n r now db t rs (lookup ℕ_discrete r.seq (roots_at p n db)) there here refl;
  set_root_same = λ p n r r' now db okay.
      set_over-same p n r r' now db (lookup ℕ_discrete r.seq (roots_at p n db)) okay;
  tree-del_root = λ p q n s db t rs there here okay.
      tree-put_there p q n (delete ℕ_discrete s (roots_at p n db)) db t _ there (
        roots_tree-delete s (roots_at p n db)
        ∙ ap (λ (y : RootsTree numbers). put_facts y s none) (roots_there p n db t rs there here));
}
