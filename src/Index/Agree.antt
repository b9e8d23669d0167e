-- ===== src/Index/Agree.antt =====
-- skyobject/index.go: the index against its database. It has the same feeds and heads, and the last
-- Root of each head.
use cxo.Prelude.{
  ℕ, ◌≡◌, refl, sym, ap, ◌∙◌, subst, Option, none, some, Error, Result, ok, err, panic, ite, if_pos,
  if_neg, Outcome, returns, panics, ℕ_discrete, inl, inr, ◌⊎◌, arith, Option-cases,
}
use cxo.GoMap.{GoMap, insert, lookup-insert}
use cxo.Cipher.{Cipher}
use cxo.Data.{DataRoot}
use cxo.IdxDb.{IdxApi, tx, tx_end, IsLast, RootsTree, HeadsTree}
use cxo.IdxDb.Laws.{IsIdxDb, put_heads, put_roots}
use cxo.Index.{Index, IndexHeads, after, then_on, in_tx, on_success, head_of}
use mathlib.Core.List.{lookup}

module _ {c : Cipher} where
  abbrev pub HeadAgrees : Option (Option (DataRoot c)) → Option (RootsTree c) → Type 0
  HeadAgrees none none = Unit
  HeadAgrees none (some rs) = ⊥
  HeadAgrees (some dr) none = ⊥
  HeadAgrees (some dr) (some rs) = IsLast dr rs

  abbrev pub FeedAgrees : Option (IndexHeads c) → Option (HeadsTree c) → Type 0
  FeedAgrees none none = Unit
  FeedAgrees none (some t) = ⊥
  FeedAgrees (some hs) none = ⊥
  FeedAgrees (some hs) (some t) = (n : ℕ) → HeadAgrees (lookup ℕ_discrete n hs.h) (t n)

  -- A head is set in both.
  pub put_heads-agree :
      (n : ℕ) (dr : Option (DataRoot c)) (rs : RootsTree c) (h : GoMap ℕ (Option (DataRoot c)))
      (t : HeadsTree c)
      → ((m : ℕ) → HeadAgrees (lookup ℕ_discrete m h) (t m))
      → IsLast dr rs
      → (m : ℕ)
      → HeadAgrees (lookup ℕ_discrete m (insert ℕ_discrete n dr h)) (put_roots t n (some rs) m)
  put_heads-agree n dr rs h t agree last m = rw lookup-insert (elim (ℕ_discrete n m) [
    | yes p ↦ rw (if_pos _ p, if_pos _ p) last
    | no p ↦ rw (if_neg _ p, if_neg _ p) (agree m)
  ])

  -- A feed is set in both.
  pub put_feed-agree :
      (pk : c.PubKey) (x : Option (IndexHeads c)) (t : Option (HeadsTree c))
      (feeds feeds' : GoMap c.PubKey (IndexHeads c)) (f : c.PubKey → Option (HeadsTree c))
      → ((q : c.PubKey)
          → lookup c.pub_dec q feeds' ≡ ite (c.pub_dec pk q) x (lookup c.pub_dec q feeds))
      → ((q : c.PubKey) → FeedAgrees (lookup c.pub_dec q feeds) (f q))
      → FeedAgrees x t
      → (q : c.PubKey) → FeedAgrees (lookup c.pub_dec q feeds') (put_heads f pk t q)
  put_feed-agree pk x t feeds feeds' f looks agree here q = rw looks (elim (c.pub_dec pk q) [
    | yes p ↦ rw (if_pos _ p, if_pos _ p) here
    | no p ↦ rw (if_neg _ p, if_neg _ p) (agree q)
  ])

  -- A head, or a feed, that is set to what agrees with the database.
  pub set_head-agree :
      (n : ℕ) (dr : Option (DataRoot c)) (h : GoMap ℕ (Option (DataRoot c))) (t : HeadsTree c)
      → ((m : ℕ) → HeadAgrees (lookup ℕ_discrete m h) (t m))
      → HeadAgrees (some dr) (t n)
      → (m : ℕ) → HeadAgrees (lookup ℕ_discrete m (insert ℕ_discrete n dr h)) (t m)
  set_head-agree n dr h t agree here m = rw lookup-insert (elim (ℕ_discrete n m) [
    | yes p ↦ rw (if_pos _ p, ← p) here
    | no p ↦ rw (if_neg _ p) (agree m)
  ])

  pub set_feed-agree :
      (pk : c.PubKey) (hs : IndexHeads c) (feeds : GoMap c.PubKey (IndexHeads c))
      (f : c.PubKey → Option (HeadsTree c))
      → ((q : c.PubKey) → FeedAgrees (lookup c.pub_dec q feeds) (f q))
      → FeedAgrees (some hs) (f pk)
      → (q : c.PubKey) → FeedAgrees (lookup c.pub_dec q (insert c.pub_dec pk hs feeds)) (f q)
  set_feed-agree pk hs feeds f agree here q = rw lookup-insert (elim (c.pub_dec pk q) [
    | yes p ↦ rw (if_pos _ p, ← p) here
    | no p ↦ rw (if_neg _ p) (agree q)
  ])

  -- A feed that has just been set.
  pub lookup-set :
      (pk : c.PubKey) (hs : IndexHeads c) (feeds : GoMap c.PubKey (IndexHeads c))
      → lookup c.pub_dec pk (insert c.pub_dec pk hs feeds) ≡ some hs
  lookup-set pk hs feeds =
      lookup-insert c.pub_dec pk pk hs feeds ∙ if_pos (c.pub_dec pk pk) refl _ _

module _ {A B S : Type 0} where
  -- What a chain of steps that ends well went through.
  pub after_done :
      (r : Result A) (b : B) (s : S) (k : A → Outcome B × S) {x : B}
      → (after r b s k).0 ≡ returns x none
      → (y : A) × (r ≡ ok y) × (after r b s k ≡ k y)
  after_done (ok y) b s k e = (y, refl, refl)
  after_done (err e') b s k e = ground arith
  after_done panic b s k e = ground arith

  pub then_on_done :
      (r : Result A × S) (b : B) (k : A → S → Outcome B × S) {x : B}
      → (then_on r b k).0 ≡ returns x none
      → (y : A) × (r.0 ≡ ok y) × (then_on r b k ≡ k y r.1)
  then_on_done (ok y, s) b k e = (y, refl, refl)
  then_on_done (err e', s) b k e = ground arith
  then_on_done (panic, s) b k e = ground arith

module _ {c : Cipher} (a : IdxApi c) where
  -- A method with a transaction does what it says, or leaves the index and the database alone.
  end_cases :
      {A : Type 0} (z : A) (f : A → Index a → Index a) (i : Index a) (o : Outcome A × a.Db)
      → ((x : A) × (o.0 ≡ returns x none)
          × (on_success a z f ((tx_end a i.db o).0, record i { db = (tx_end a i.db o).1 })
              ≡ (returns x none, f x (record i { db = o.1 }))))
        ⊎ ((on_success a z f ((tx_end a i.db o).0, record i { db = (tx_end a i.db o).1 })).1 ≡ i)
  end_cases z f i (returns x none, db) = elim (Option-cases (a.commit db)) [
    | inl e ↦ inl (x, refl, rw e)
    | inr (y, e) ↦ inr (rw e)
  ]
  end_cases z f i (returns x (some e), db) = inr refl
  end_cases z f i (panics, db) = inr refl

  pub tx_cases :
      {A : Type 0} (z : A) (f : A → Index a → Index a) (body : a.Db → Outcome A × a.Db)
      (i : Index a)
      → ((x : A) × ((body i.db).0 ≡ returns x none)
          × (on_success a z f (in_tx a body i)
              ≡ (returns x none, f x (record i { db = (body i.db).1 }))))
        ⊎ ((on_success a z f (in_tx a body i)).1 ≡ i)
  unfolding tx
  tx_cases z f body i = end_cases z f i (body i.db)

  -- What a method with a transaction has done when it succeeds.
  end_done :
      {A : Type 0} (z : A) (f : A → Index a → Index a) (i : Index a) (o : Outcome A × a.Db) {x : A}
      → (on_success a z f ((tx_end a i.db o).0, record i { db = (tx_end a i.db o).1 })).0
        ≡ returns x none
      → on_success a z f ((tx_end a i.db o).0, record i { db = (tx_end a i.db o).1 })
        ≡ (returns x none, f x (record i { db = o.1 }))
  end_done z f i (returns y none, db) {x} d = elim (Option-cases (a.commit db)) [
    | inl e ↦
        let same : y ≡ x = ground arith in
        rw e (ap (λ w. (returns w none, f w (record i { db = db }))) same)
    | inr (err_there, e) ↦ absurd (ground arith)
  ]
  end_done z f i (returns y (some e), db) d = absurd (ground arith)
  end_done z f i (panics, db) d = absurd (ground arith)

  pub tx_done :
      {A : Type 0} (z : A) (f : A → Index a → Index a) (body : a.Db → Outcome A × a.Db)
      (i : Index a) {x : A}
      → (on_success a z f (in_tx a body i)).0 ≡ returns x none
      → on_success a z f (in_tx a body i) ≡ (returns x none, f x (record i { db = (body i.db).1 }))
  unfolding tx
  tx_done z f body i d = end_done z f i (body i.db) d

  -- What holds of the index before a method with a transaction, and after it if it succeeds, holds.
  pub tx_keeps :
      {A : Type 0} (P : Index a → Type 0) (z : A) (f : A → Index a → Index a)
      (body : a.Db → Outcome A × a.Db) (i : Index a)
      → P i
      → ((x : A) → (body i.db).0 ≡ returns x none → P (f x (record i { db = (body i.db).1 })))
      → P (on_success a z f (in_tx a body i)).1
  tx_keeps P z f body i h step = elim (tx_cases z f body i) [
    | inr same ↦ subst P (sym same) h
    | inl (x, d, e) ↦ subst P (sym (ap (λ o. o.1) e)) (step x d)
  ]

  -- The same for a method that goes on in another way once its transaction has succeeded.
  pub tx_then_keeps :
      {A B : Type 0} (P : Index a → Type 0) (f : Outcome A × Index a → Outcome B × Index a)
      (body : a.Db → Outcome A × a.Db) (i : Index a)
      → ((x : A) (e : Error) → (f (returns x (some e), i)).1 ≡ i)
      → (f (panics, i)).1 ≡ i
      → P i
      → ((x : A)
          → (body i.db).0 ≡ returns x none
          → P (f (returns x none, record i { db = (body i.db).1 })).1)
      → P (f (in_tx a body i)).1
  unfolding tx
  tx_then_keeps {A} P f body i fails breaks h step = go (body i.db) step
    where
      go :
          (o : Outcome A × a.Db)
          → ((x : A) → o.0 ≡ returns x none → P (f (returns x none, record i { db = o.1 })).1)
          → P (f ((tx_end a i.db o).0, record i { db = (tx_end a i.db o).1 })).1
      go (returns x none, db) step = elim (Option-cases (a.commit db)) [
        | inl e ↦ rw e (step x refl)
        | inr (y, e) ↦ rw e (subst P (sym (fails x y)) h)
      ]
      go (returns x (some e), db) step = subst P (sym (fails x e)) h
      go (panics, db) step = subst P (sym breaks) h

  -- A head of the index is a head of a feed of the index.
  pub head_of-found :
      (pk : c.PubKey) (n : ℕ) (feeds : GoMap c.PubKey (IndexHeads c)) {dr : Option (DataRoot c)}
      → head_of a pk n feeds ≡ ok dr
      → (hs : IndexHeads c) × (lookup c.pub_dec pk feeds ≡ some hs)
        × (lookup ℕ_discrete n hs.h ≡ some dr)
  unfolding head_of
  head_of-found pk n feeds {dr} h = elim (Option-cases (lookup c.pub_dec pk feeds)) [
    | inl e ↦ ground arith
    | inr (hs, e) ↦ elim (Option-cases (lookup ℕ_discrete n hs.h)) [
      | inl e' ↦ ground arith
      | inr (x, e') ↦ (hs, e, ground arith)
    ]
  ]

  pub head_of-known :
      (pk : c.PubKey) (n : ℕ) (x : Option (DataRoot c)) (hs : IndexHeads c)
      (feeds : GoMap c.PubKey (IndexHeads c))
      → lookup c.pub_dec pk feeds ≡ some hs
      → lookup ℕ_discrete n hs.h ≡ some x
      → head_of a pk n feeds ≡ ok x
  unfolding head_of
  head_of-known pk n x hs feeds e e' = rw (e, head_of, e') refl

module _ {c : Cipher} {a : IdxApi c} (l : IsIdxDb a) where
  -- The feeds are those of the database, with the same heads, and each head has its last Root.
  abbrev pub IsIndexed : Index a → Type 0
  IsIndexed i = (pk : c.PubKey) → FeedAgrees (lookup c.pub_dec pk i.feeds) (l.tree i.db pk)

  -- A feed of the index is in the database.
  pub feed_there :
      (pk : c.PubKey) (hs : IndexHeads c) (i : Index a)
      → IsIndexed i
      → lookup c.pub_dec pk i.feeds ≡ some hs
      → (t : HeadsTree c) × (l.tree i.db pk ≡ some t)
        × ((n : ℕ) → HeadAgrees (lookup ℕ_discrete n hs.h) (t n))
  feed_there pk hs i agree e = elim (Option-cases (l.tree i.db pk)) [
    | inl x ↦ absurd (
        subst (λ o. FeedAgrees (some hs) o) x
          (subst (λ o. FeedAgrees o (l.tree i.db pk)) e (agree pk)))
    | inr (t, x) ↦ (
      t,
      x,
      subst (λ o. FeedAgrees (some hs) o) x
          (subst (λ o. FeedAgrees o (l.tree i.db pk)) e (agree pk)),
    )
  ]

  pub head_there :
      (n : ℕ) (dr : Option (DataRoot c)) (hs : IndexHeads c) (t : HeadsTree c)
      → ((m : ℕ) → HeadAgrees (lookup ℕ_discrete m hs.h) (t m))
      → lookup ℕ_discrete n hs.h ≡ some dr
      → (rs : RootsTree c) × (t n ≡ some rs) × IsLast dr rs
  head_there n dr hs t agree e = elim (Option-cases (t n)) [
    | inl x ↦
        absurd (subst (λ o. HeadAgrees (some dr) o) x (subst (λ o. HeadAgrees o (t n)) e (agree n)))
    | inr (rs, x) ↦
        (rs, x, subst (λ o. HeadAgrees (some dr) o) x (subst (λ o. HeadAgrees o (t n)) e (agree n)))
  ]
