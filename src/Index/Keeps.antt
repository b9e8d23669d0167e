-- ===== src/Index/Keeps.antt =====
-- skyobject/index.go: the methods that keep the index in agreement with its database.
use cxo.Prelude.{
  ℕ, ◌≡◌, sym, ap, ◌∙◌, subst, [], List, Option, none, some, ok, if_pos, if_neg, returns,
  ℕ_discrete, inl, inr, Option-cases, Result-cases,
}
use cxo.GoMap.{GoMap, insert, delete, lookup-insert, lookup-delete}
use cxo.Cipher.{Cipher}
use cxo.Data.{DataRoot}
use cxo.IdxDb.{IdxApi, HeadsTree}
use cxo.IdxDb.Laws.{IsIdxDb, put_roots, no_heads}
use cxo.Index.{Index, IndexHeads, new_index_heads, add_feed, add_to_db, head_of, with_feed}
use cxo.Index.Delete.{
  del_feed, del_head, feed_from_db, head_from_db, all_hashes, put_found, without_feed, without_head,
}
use cxo.Index.Agree.{
  HeadAgrees, FeedAgrees, put_feed-agree, after_done, then_on_done, tx_keeps, IsIndexed, feed_there,
  head_of-found,
}
use mathlib.Core.List.{lookup}

module _ {c : Cipher} (a : IdxApi c) where
  pub without_head-found :
      (pk : c.PubKey) (n : ℕ) (hs : IndexHeads c) (i : Index a)
      → lookup c.pub_dec pk i.feeds ≡ some hs
      → without_head a pk n i ≡ record i {
        feeds = insert c.pub_dec pk (record hs { h = delete ℕ_discrete n hs.h }) i.feeds;
      }
  without_head-found pk n hs i e =
      ap (put_found a pk (λ hs. record hs { h = delete ℕ_discrete n hs.h }) i) e

module _ {c : Cipher} {a : IdxApi c} (l : IsIdxDb a) where
  no_feed :
      (pk : c.PubKey) (i : Index a)
      → IsIndexed l i
      → lookup c.pub_dec pk i.feeds ≡ none
      → l.tree i.db pk ≡ none
  no_feed pk i h e = elim (Option-cases (l.tree i.db pk)) [
    | inl x ↦ x
    | inr (t, x) ↦
        absurd
          (subst (λ o. FeedAgrees none o) x (subst (λ o. FeedAgrees o (l.tree i.db pk)) e (h pk)))
  ]

  -- `AddFeed` keeps the index in agreement with the database, whether it succeeds or fails.
  pub add_feed-IsIndexed :
      (pk : c.PubKey) (i : Index a) → IsIndexed l i → IsIndexed l (add_feed a pk i).1
  unfolding add_feed
  add_feed-IsIndexed pk i h = elim (Option-cases (lookup c.pub_dec pk i.feeds)) [
    | inr (hs, e) ↦ rw (e, add_feed) h
    | inl e ↦
        rw (e, add_feed)
          (tx_keeps a (IsIndexed l) tt (λ _. with_feed a pk) (add_to_db a pk) i h
            λ x d q.
              let (y, okay, step) = then_on_done (a.add_feed pk i.db) tt _ d in
              rw (step, l.tree-add_feed pk q i.db okay, no_feed pk i h e)
                (put_feed-agree pk (some new_index_heads) (some no_heads) i.feeds _ (l.tree i.db)
                  (λ j. lookup-insert c.pub_dec pk j new_index_heads i.feeds) h
                  (λ n. unfold lookup in tt) q))
  ]

  feed_gone :
      (pk : c.PubKey) (heads : GoMap ℕ (Option (DataRoot c))) (db : a.Db) {x : List c.Sha256}
      → (feed_from_db a pk heads db).0 ≡ returns x none
      → (y : Unit {0}) × ((a.del_feed pk db).0 ≡ ok y)
        × ((feed_from_db a pk heads db).1 ≡ (a.del_feed pk db).1)
  unfolding feed_from_db
  feed_gone pk heads db d =
      let (o, opened, s1) = after_done (a.open_heads pk db) [] db _ d in
      let d1 = sym (ap (λ x. x.0) s1) ∙ d in
      let (hl, listed, s2) = after_done (all_hashes a pk heads db) [] db _ d1 in
      let d2 = sym (ap (λ x. x.0) s2) ∙ d1 in
      let (y, okay, s3) = then_on_done (a.del_feed pk db) [] _ d2 in
      (y, okay, ap (λ x. x.1) (s1 ∙ s2 ∙ s3))

  head_gone :
      (pk : c.PubKey) (n : ℕ) (db : a.Db) {x : List c.Sha256}
      → (head_from_db a pk n db).0 ≡ returns x none
      → (y : Unit {0}) × ((a.del_head pk n db).0 ≡ ok y)
        × ((head_from_db a pk n db).1 ≡ (a.del_head pk n db).1)
  unfolding head_from_db
  head_gone pk n db d =
      let (o, opened, s1) = after_done (a.open_heads pk db) [] db _ d in
      let d1 = sym (ap (λ x. x.0) s1) ∙ d in
      let (o', opened', s2) = after_done (a.open_roots pk n db) [] db _ d1 in
      let d2 = sym (ap (λ x. x.0) s2) ∙ d1 in
      let (y, okay, s3) = then_on_done (a.del_head pk n db) [] _ d2 in
      (y, okay, ap (λ x. x.1) (s1 ∙ s2 ∙ s3))

  -- `delFeed` keeps the index in agreement with the database, whether it succeeds or fails.
  pub del_feed-IsIndexed :
      (pk : c.PubKey) (i : Index a) → IsIndexed l i → IsIndexed l (del_feed a pk i).1
  unfolding del_feed
  del_feed-IsIndexed pk i h = elim (Option-cases (lookup c.pub_dec pk i.feeds)) [
    | inl e ↦ rw (e, del_feed) h
    | inr (hs, e) ↦
        rw (e, del_feed)
          (tx_keeps a (IsIndexed l) [] (λ _. without_feed a pk) (feed_from_db a pk hs.h) i h
            λ x d q.
              let (y, okay, step) = feed_gone pk hs.h i.db d in
              rw (step, l.tree-del_feed pk q i.db okay)
                (put_feed-agree pk none none i.feeds _ (l.tree i.db)
                  (λ j. lookup-delete c.pub_dec pk j i.feeds) h tt q))
  ]

  -- `delHead` keeps the index in agreement with the database, whether it succeeds or fails.
  pub del_head-IsIndexed :
      (pk : c.PubKey) (n : ℕ) (i : Index a) → IsIndexed l i → IsIndexed l (del_head a pk n i).1
  unfolding del_head
  del_head-IsIndexed pk n i h = elim (Result-cases (head_of a pk n i.feeds)) [
    | inr (inl (e, f)) ↦ rw f h
    | inr (inr f) ↦ rw f h
    | inl (dr, f) ↦
        let (hs, e, e') = head_of-found a pk n i.feeds f in
        let (t, there, agree) = feed_there l pk hs i h e in
        rw f (
          tx_keeps a (IsIndexed l) [] (λ _. without_head a pk n) (head_from_db a pk n) i h
            λ x d.
              let (y, okay, step) = head_gone pk n i.db d in
              let i' : Index a = record i { db = (a.del_head pk n i.db).1 } in
              let after_all =
                ap (λ db. without_head a pk n (record i { db = db })) step
                ∙ without_head-found a pk n hs i' e in
              subst (IsIndexed l) (sym after_all) λ q.
                rw (l.tree-del_head pk q n i.db t there okay) (
                  put_feed-agree pk (some (record hs { h = delete ℕ_discrete n hs.h }))
                    (some (put_roots t n none)) i.feeds _ (l.tree i.db)
                    (λ j. lookup-insert c.pub_dec pk j _ i.feeds) h (gone hs t agree) q))
  ]
    where
      gone :
          (hs : IndexHeads c) (t : HeadsTree c)
          → ((m : ℕ) → HeadAgrees (lookup ℕ_discrete m hs.h) (t m))
          → (m : ℕ)
          → HeadAgrees (lookup ℕ_discrete m (delete ℕ_discrete n hs.h)) (put_roots t n none m)
      gone hs t agree m = rw lookup-delete (elim (ℕ_discrete n m) [
        | yes p ↦ rw (if_pos _ p, if_pos _ p) tt
        | no p ↦ rw (if_neg _ p, if_neg _ p) (agree m)
      ])
