-- ===== src/Index/Loaded.antt =====
-- skyobject/index.go: `load` against the database.
use cxo.Prelude.{
  first_value, ℕ, ◌≡◌, refl, sym, ◌∙◌, subst, true, List, [], ◌∷◌, Option, none, some, Error, ok,
  if_pos, if_neg, ℕ_discrete, inl, inr, ◌⊎◌, arith, Option-cases, Bool-cases,
}
use cxo.Prelude.Int.{ltb_ℤ}
use cxo.GoMap.{GoMap, insert, lookup-insert}
use cxo.Cipher.{Cipher}
use cxo.Data.{DataRoot}
use cxo.IdxDb.{IdxApi, RootsTree, HeadsTree, is_in, is_there, last_of}
use cxo.IdxDb.Laws.{IsIdxDb, opens}
use cxo.Index.{Index, IndexHeads, new_index_heads}
use cxo.Index.Load.{load_head, load_heads, load_feeds, load, loaded}
use cxo.Index.Agree.{HeadAgrees, FeedAgrees, IsIndexed}
use mathlib.Core.List.{lookup}

module _ {c : Cipher} {a : IdxApi c} (l : IsIdxDb a) where
  load_head-h :
      (n : ℕ) (dr : Option (DataRoot c)) (hs : IndexHeads c)
      → (load_head a n dr hs).h ≡ insert ℕ_discrete n dr hs.h
  unfolding load_head
  load_head-h n none hs = refl
  load_head-h n (some ir) hs = elim (Bool-cases (ltb_ℤ hs.activet ir.time)) [
    | inl b ↦ rw b
    | inr b ↦ rw b
  ]

  -- After the heads of a list are loaded, a head that is on the list has its last Root, and the
  -- others are as they were.
  load_heads-agree :
      (pk : c.PubKey) (t : HeadsTree c) (db : a.Db) (ns : List ℕ) (hs hs' : IndexHeads c)
      → l.tree db pk ≡ some t
      → load_heads a pk ns db hs ≡ ok hs'
      → ((m : ℕ) → (HeadAgrees (lookup ℕ_discrete m hs.h) (t m)) ⊎ (is_in ℕ_discrete m ns ≡ true))
      → (m : ℕ) → HeadAgrees (lookup ℕ_discrete m hs'.h) (t m)
  unfolding load_heads
  load_heads-agree pk t db [] hs hs' there e h m =
      let same : hs ≡ hs' = ground arith in
      subst (λ (x : IndexHeads c). HeadAgrees (lookup ℕ_discrete m x.h) (t m)) same
        (elim (h m) [ inl agree ↦ agree | inr bad ↦ absurd (ground arith) ])
  load_heads-agree pk t db (n ∷ ns) hs hs' there e h m =
      let (o, e', opened) = first_value _ (a.open_roots pk n db) e in
      let dr = last_of (a.roots pk n db) in
      load_heads-agree pk t db ns (load_head a n dr hs) hs' there e'
        (λ k. elim (ℕ_discrete n k) [
          | yes p ↦ inl (
              rw (load_head-h, lookup-insert, if_pos _ p, ← p)
                (head_loaded n (sym (l.open_roots_lem pk n db t there) ∙ opened)))
          | no p ↦ elim (h k) [
            | inl agree ↦ inl (rw (load_head-h, lookup-insert, if_neg _ p) agree)
            | inr listed ↦ inr (ground arith)
          ]
        ])
        m
    where
      head_loaded :
          (n : ℕ) {o : Unit {0}}
          → opens Error.no_such_head (t n) ≡ ok o
          → HeadAgrees (some (last_of (a.roots pk n db))) (t n)
      head_loaded n e = elim (Option-cases (t n)) [
        | inl x ↦ absurd (ground arith)
        | inr (rs, x) ↦ rw x (l.roots_lem pk n db t rs there x)
      ]

  load_feeds-agree :
      (db : a.Db) (ps : List c.PubKey) (fs fs' : GoMap c.PubKey (IndexHeads c))
      → load_feeds a ps db fs ≡ ok fs'
      → ((q : c.PubKey)
          → (FeedAgrees (lookup c.pub_dec q fs) (l.tree db q)) ⊎ (is_in c.pub_dec q ps ≡ true))
      → (q : c.PubKey) → FeedAgrees (lookup c.pub_dec q fs') (l.tree db q)
  unfolding load_feeds
  load_feeds-agree db [] fs fs' e h q =
      let same : fs ≡ fs' = ground arith in
      subst (λ (x : GoMap c.PubKey (IndexHeads c)). FeedAgrees (lookup c.pub_dec q x) (l.tree db q))
        same (elim (h q) [ inl agree ↦ agree | inr bad ↦ absurd (ground arith) ])
  load_feeds-agree db (p ∷ ps) fs fs' e h q =
      let (o, e1, opened) = first_value _ (a.open_heads p db) e in
      let (hs, e2, heads_loaded) =
        first_value _ (load_heads a p (a.heads p db) db new_index_heads) e1 in
      load_feeds-agree db ps (insert c.pub_dec p hs fs) fs' e2
        (λ k. elim (c.pub_dec p k) [
          | yes y ↦ inl (
              rw (lookup-insert, if_pos _ y, ← y)
                (feed_loaded hs (sym (l.open_heads_lem p db) ∙ opened) heads_loaded))
          | no y ↦ elim (h k) [
            | inl agree ↦ inl (rw (lookup-insert, if_neg _ y) agree)
            | inr listed ↦ inr (ground arith)
          ]
        ])
        q
    where
      start :
          (m : ℕ) (o : Option (RootsTree c))
          → is_in ℕ_discrete m (a.heads p db) ≡ is_there o
          → (HeadAgrees (lookup ℕ_discrete m []) o) ⊎ (is_in ℕ_discrete m (a.heads p db) ≡ true)
      start m none e = inl (unfold lookup in tt)
      start m (some rs) e = inr e

      feed_loaded :
          (hs : IndexHeads c) {o : Unit {0}}
          → opens Error.no_such_feed (l.tree db p) ≡ ok o
          → load_heads a p (a.heads p db) db new_index_heads ≡ ok hs
          → FeedAgrees (some hs) (l.tree db p)
      feed_loaded hs e e' = elim (Option-cases (l.tree db p)) [
        | inl x ↦ absurd (ground arith)
        | inr (t, x) ↦ rw x (
            load_heads-agree p t db (a.heads p db) new_index_heads hs x e'
              (λ m. start m (t m) (l.heads_lem p m db t x)))
      ]

  loaded_same : (i i' : Index a) (o : Option Error) → loaded a i o ≡ ok i' → i ≡ i'
  loaded_same i i' none e = cc
  loaded_same i i' (some x) e = absurd cc

  -- The index that `load` makes of a database is in agreement with it.
  pub load-IsIndexed : (db : a.Db) (i : Index a) → load a db ≡ ok i → IsIndexed l i
  unfolding load
  load-IsIndexed db i e =
      let (fs, e', feeds_loaded) = first_value _ (load_feeds a (a.feeds db) db []) e in
      subst (IsIndexed l) (loaded_same _ i (a.commit db) e') (
        load_feeds-agree db (a.feeds db) [] fs feeds_loaded
          (λ q. start q (l.tree db q) (l.feeds_lem q db)))
    where
      start :
          (q : c.PubKey) (o : Option (HeadsTree c))
          → is_in c.pub_dec q (a.feeds db) ≡ is_there o
          → (FeedAgrees (lookup c.pub_dec q []) o) ⊎ (is_in c.pub_dec q (a.feeds db) ≡ true)
      start q none e = inl (unfold lookup in tt)
      start q (some t) e = inr e
