-- ===== src/Index/Find.antt =====
-- skyobject/index.go: `findRoot` against the database.
use cxo.Prelude.{
  ℕ, ◌≤◌, ◌≡◌, refl, sym, ap, ◌∙◌, subst, Option, none, some, Error, Result, ok, err, panic,
  Outcome, returns, panics, inl, inr, ◌⊎◌, arith, Option-cases, Result-cases, Bool-cases, Bool,
  true, false, ◌==◌, if◌then◌else◌,
}
use cxo.Prelude.Int.{ℤ}
use cxo.Cipher.{Cipher}
use cxo.Data.{DataRoot}
use cxo.IdxDb.{IdxApi, RootsTree, HeadsTree, tx, tx_end, facts}
use cxo.IdxDb.Laws.{IsIdxDb}
use cxo.Index.{Index, after, in_tx, head_of, last_root, root_in_db, find_root, got_root}
use cxo.Index.Agree.{IsIndexed, feed_there, head_there, head_of-found}

module _ {c : Cipher} (a : IdxApi c) where
  pub last_root-found :
      (pk : c.PubKey) (n : ℕ) (i : Index a) {dr : DataRoot c}
      → last_root a pk n i ≡ ok dr
      → head_of a pk n i.feeds ≡ ok (some dr)
  unfolding last_root
  last_root-found pk n i {dr} h = elim (Result-cases (head_of a pk n i.feeds)) [
    | inl (x, e) ↦ elim (Option-cases x) [ inl e' ↦ ground arith | inr (y, e') ↦ ground arith ]
    | inr (inl (x, e)) ↦ ground arith
    | inr (inr e) ↦ ground arith
  ]

  -- The database after a transaction is one of two.
  tx_either :
      {A : Type 0} (P : a.Db → Type 0) (body : a.Db → Outcome A × a.Db) (db : a.Db)
      → P db
      → P (body db).1
      → P (tx a body db).1
  unfolding tx
  tx_either {A} P body db here there = go (body db) there
    where
      go : (o : Outcome A × a.Db) → P o.1 → P (tx_end a db o).1
      go (returns x none, db') there = elim (Option-cases (a.commit db')) [
        | inl e ↦ rw e there
        | inr (y, e) ↦ rw e here
      ]
      go (returns x (some e), db') there = here
      go (panics, db') there = here

module _ {c : Cipher} {a : IdxApi c} (l : IsIdxDb a) where
  -- What `root_in_db` does to the database.
  root_in_db-tree :
      (pk : c.PubKey) (n s : ℕ) (now : ℤ) (dr : DataRoot c) (db : a.Db) (q : c.PubKey)
      → l.tree (root_in_db a pk n s now dr db).1 q ≡ l.tree db q
  unfolding root_in_db
  root_in_db-tree pk n s now dr db q = heads (a.open_heads pk db)
    where
      got : (o : Result (DataRoot c) × a.Db) → (got_root a o).1 ≡ o.1
      got (ok x, db) = refl
      got (err e, db) = refl
      got (panic, db) = refl

      roots :
          (r : Result (Unit {0}))
          → l.tree (after r (some dr) db (λ _. got_root a (a.get_root pk n s now db))).1 q
            ≡ l.tree db q
      roots (ok _) = rw (got (a.get_root pk n s now db)) (l.tree-get_root pk q n s now db)
      roots (err e) = refl
      roots panic = refl

      heads :
          (r : Result (Unit {0}))
          → l.tree
              (after r (some dr) db (λ _.
                after
                  (a.open_roots pk n db)
                  (some dr)
                  db
                  (λ _. got_root a (a.get_root pk n s now db)))).1
              q
            ≡ l.tree db q
      heads (ok _) = roots (a.open_roots pk n db)
      heads (err e) = refl
      heads panic = refl

  -- `findRoot` keeps the feeds of the index and what its database shows.
  pub find_root_same :
      (pk : c.PubKey) (n s : ℕ) (now : ℤ) (i : Index a)
      → ((find_root a pk n s now i).1.feeds ≡ i.feeds)
        × ((q : c.PubKey) → l.tree (find_root a pk n s now i).1.db q ≡ l.tree i.db q)
  unfolding find_root
  find_root_same pk n s now i = elim (Result-cases (last_root a pk n i)) [
    | inr (inl (e, f)) ↦ rw f (refl, λ q. refl)
    | inr (inr f) ↦ rw f (refl, λ q. refl)
    | inl (dr, f) ↦ rw f (elim (Bool-cases (dr.seq == s)) [
      | inl b ↦ rw b (refl, λ q. refl)
      | inr b ↦ rw b (
        refl,
        λ q.
            tx_either a (λ db. l.tree db q ≡ l.tree i.db q) (root_in_db a pk n s now dr) i.db refl
              (root_in_db-tree pk n s now dr i.db q),
      )
    ])
  ]

  -- `findRoot`, whatever it returns, keeps the index in agreement with the database.
  pub find_root-IsIndexed :
      (pk : c.PubKey) (n s : ℕ) (now : ℤ) (i : Index a)
      → IsIndexed l i
      → IsIndexed l (find_root a pk n s now i).1
  find_root-IsIndexed pk n s now i h q =
      let (same, trees) = find_root_same pk n s now i in rw (same, trees q) (h q)

module _ {c : Cipher} {a : IdxApi c} (l : IsIdxDb a) where
  -- The values of a transaction are those of its function.
  pub tx_value :
      {A : Type 0} (body : a.Db → Outcome A × a.Db) (db : a.Db) {x : A} {e : Option Error}
      → (tx a body db).0 ≡ returns x e
      → ((body db).0 ≡ returns x e) ⊎ ((y : Error) × (e ≡ some y) × ((body db).0 ≡ returns x none))
  unfolding tx
  tx_value {A} body db {x} {e} h = go (body db) h
    where
      go :
          (o : Outcome A × a.Db)
          → (tx_end a db o).0 ≡ returns x e
          → (o.0 ≡ returns x e) ⊎ ((y : Error) × (e ≡ some y) × (o.0 ≡ returns x none))
      go (returns z none, db') h = elim (Option-cases (a.commit db')) [
        | inl q ↦ inl (ground arith)
        | inr (y, q) ↦ inr (y, ground arith, ground arith)
      ]
      go (returns z (some e'), db') h = inl h
      go (panics, db') h = ground arith

  -- The Root that is there beside the result is the last one, unless `Get` has found one.
  root_in_db-value :
      (pk : c.PubKey) (n s : ℕ) (now : ℤ) (dr x : DataRoot c) (db : a.Db) (e : Option Error)
      → (root_in_db a pk n s now dr db).0 ≡ returns (some x) e
      → ((x ≡ dr) × ((y : Error) × (e ≡ some y))) ⊎ ((a.get_root pk n s now db).0 ≡ ok x)
  unfolding root_in_db
  root_in_db-value pk n s now dr x db e h = heads (a.open_heads pk db) h
    where
      got :
          (o : Result (DataRoot c) × a.Db)
          → (got_root a o).0 ≡ returns (some x) e
          → ((x ≡ dr) × ((y : Error) × (e ≡ some y))) ⊎ (o.0 ≡ ok x)
      got (ok z, db') h = inr (ground arith)
      got (err y, db') h = ground arith
      got (panic, db') h = ground arith

      roots :
          (r : Result (Unit {0}))
          → (after r (some dr) db (λ _. got_root a (a.get_root pk n s now db))).0
            ≡ returns (some x) e
          → ((x ≡ dr) × ((y : Error) × (e ≡ some y))) ⊎ ((a.get_root pk n s now db).0 ≡ ok x)
      roots (ok _) h = got (a.get_root pk n s now db) h
      roots (err y) h = inl (ground arith, (y, ground arith))
      roots panic h = ground arith

      heads :
          (r : Result (Unit {0}))
          → (after r (some dr) db (λ _.
              after
                (a.open_roots pk n db)
                (some dr)
                db
                (λ _. got_root a (a.get_root pk n s now db)))).0
            ≡ returns (some x) e
          → ((x ≡ dr) × ((y : Error) × (e ≡ some y))) ⊎ ((a.get_root pk n s now db).0 ≡ ok x)
      heads (ok _) h = roots (a.open_roots pk n db) h
      heads (err y) h = inl (ground arith, (y, ground arith))
      heads panic h = ground arith

  -- A Root in the tree of the database.
  abbrev pub IsStored : c.PubKey → ℕ → DataRoot c → a.Db → Type 0
  IsStored pk n x db =
      (t : HeadsTree c) × (rs : RootsTree c) × (l.tree db pk ≡ some t)
      × (t n ≡ some rs)
      × (rs x.seq ≡ some (facts x))

  pub last-IsStored :
      (pk : c.PubKey) (n : ℕ) (dr : DataRoot c) (i : Index a)
      → IsIndexed l i
      → last_root a pk n i ≡ ok dr
      → IsStored pk n dr i.db
  last-IsStored pk n dr i h f =
      let (hs, e, e') = head_of-found a pk n i.feeds (last_root-found a pk n i f) in
      let (t, there, agree) = feed_there l pk hs i h e in
      let (rs, here, last) = head_there l n (some dr) hs t agree e' in (t, rs, there, here, last.0)

  got-IsStored :
      (pk : c.PubKey) (n s : ℕ) (now : ℤ) (dr x : DataRoot c) (i : Index a)
      → IsStored pk n dr i.db
      → (a.get_root pk n s now i.db).0 ≡ ok x
      → (x.seq ≡ s) × IsStored pk n x i.db
  got-IsStored pk n s now dr x i (t, rs, there, here, _) g =
      let (same, found) = l.get_root_found pk n s now i.db t rs x there here g in
      (same, (t, rs, there, here, ap rs same ∙ found))

  -- What `findRoot` finds is the last Root, with no error only if it has the number, or a Root that
  -- `Get` has found.
  find_root-value :
      (pk : c.PubKey) (n s : ℕ) (now : ℤ) (x : DataRoot c) (i : Index a) (e : Option Error)
      → (find_root a pk n s now i).0 ≡ returns (some x) e
      → (dr : DataRoot c) × (last_root a pk n i ≡ ok dr)
        × (((x ≡ dr) × ((dr.seq ≡ s) ⊎ ((y : Error) × (e ≡ some y))))
            ⊎ ((a.get_root pk n s now i.db).0 ≡ ok x))
  unfolding find_root
  find_root-value pk n s now x i e h = go (last_root a pk n i) refl h
    where
      branch :
          (dr : DataRoot c) (b : Bool)
          → (dr.seq == s) ≡ b
          → (if b then (returns (some dr) none, i) else in_tx a (root_in_db a pk n s now dr) i).0
            ≡ returns (some x) e
          → ((x ≡ dr) × ((dr.seq ≡ s) ⊎ ((y : Error) × (e ≡ some y))))
            ⊎ ((a.get_root pk n s now i.db).0 ≡ ok x)
      branch dr true q h = inl (ground arith, inl (ground arith))
      branch dr false q h = elim (tx_value (root_in_db a pk n s now dr) i.db h) [
        | inl v ↦ elim (root_in_db-value pk n s now dr x i.db e v) [
          | inl (same, failed) ↦ inl (same, inr failed)
          | inr g ↦ inr g
        ]
        | inr (y, failed, v) ↦ elim (root_in_db-value pk n s now dr x i.db none v) [
          | inl (same, (z, bad)) ↦ inl (same, inr (y, failed))
          | inr g ↦ inr g
        ]
      ]

      go :
          (r : Result (DataRoot c))
          → last_root a pk n i ≡ r
          → (after r none i (λ dr.
              if dr.seq == s
              then (returns (some dr) none, i)
              else in_tx a (root_in_db a pk n s now dr) i)).0
            ≡ returns (some x) e
          → (dr : DataRoot c) × (last_root a pk n i ≡ ok dr)
            × (((x ≡ dr) × ((dr.seq ≡ s) ⊎ ((y : Error) × (e ≡ some y))))
                ⊎ ((a.get_root pk n s now i.db).0 ≡ ok x))
      go (ok dr) f h = (dr, f, branch dr (dr.seq == s) refl h)
      go (err y) f h = absurd (ground arith)
      go panic f h = absurd (ground arith)

  -- What `findRoot` returns with no error has the number that was asked for and is in the database.
  pub find_root_sound :
      (pk : c.PubKey) (n s : ℕ) (now : ℤ) (x : DataRoot c) (i : Index a)
      → IsIndexed l i
      → (find_root a pk n s now i).0 ≡ returns (some x) none
      → (x.seq ≡ s) × IsStored pk n x i.db
  find_root_sound pk n s now x i h r =
      let (dr, f, cases) = find_root-value pk n s now x i none r in
      elim cases [
        | inl (same, inl q) ↦
            subst (λ (y : DataRoot c). (y.seq ≡ s) × IsStored pk n y i.db) (sym same)
              (q, last-IsStored pk n dr i h f)
        | inl (same, inr (y, bad)) ↦ absurd (ground arith)
        | inr g ↦ got-IsStored pk n s now dr x i (last-IsStored pk n dr i h f) g
      ]

  -- What it finds is not later than what was asked for, if the last Root is not.
  pub find_root_bound :
      (pk : c.PubKey) (n s : ℕ) (now : ℤ) (x : DataRoot c) (i : Index a) (e : Option Error)
      → IsIndexed l i
      → ((dr : DataRoot c) → last_root a pk n i ≡ ok dr → dr.seq ≤ s)
      → (find_root a pk n s now i).0 ≡ returns (some x) e
      → x.seq ≤ s
  find_root_bound pk n s now x i e h newer r =
      let (dr, f, cases) = find_root-value pk n s now x i e r in
      elim cases [
        | inl (same, _) ↦ subst (λ (y : DataRoot c). y.seq ≤ s) (sym same) (newer dr f)
        | inr g ↦ omega (arith, (got-IsStored pk n s now dr x i (last-IsStored pk n dr i h f) g).0)
      ]
