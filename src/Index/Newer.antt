-- ===== src/Index/Newer.antt =====
-- skyobject/index.go: `AddRoot` of a Root that is later than the last one of its head.
use cxo.Prelude.{
  ℕ, ◌<◌, ◌≤◌, ◌≡◌, refl, sym, ap, ◌∙◌, subst, Bool, false, Option, none, some, ite, if_pos, if_neg,
  returns, ℕ_discrete, inl, inr, arith, Option-cases, Bool-cases, ◌==◌, ltb, if◌then◌else◌,
}
use cxo.Prelude.Int.{ℤ, ltb_ℤ}
use cxo.GoMap.{insert, lookup-insert}
use cxo.Cipher.{Cipher}
use cxo.Data.{DataRoot}
use cxo.Registry.{Root}
use cxo.IdxDb.{IdxApi, IsLast, RootsTree, HeadsTree, Facts, facts}
use cxo.IdxDb.Laws.{IsIdxDb, put_heads, put_roots, put_facts, no_roots}
use cxo.Index.{Index, IndexHeads, put_last}
use cxo.Index.Add.{data_root, touch_last, save_root, put_root}
use cxo.Index.Agree.{
  HeadAgrees, IsIndexed, set_head-agree, set_feed-agree, feed_there, head_there, after_done,
  then_on_done,
}
use mathlib.Core.List.{lookup}
use mathlib.Core.Option.{get_or}

module _ {c : Cipher} {a : IdxApi c} (l : IsIdxDb a) where
  -- A Root that is found again is touched, which the database does not show.
  pub touch_last-IsIndexed :
      (pk : c.PubKey) (n s : ℕ) (now : ℤ) (i : Index a)
      → IsIndexed l i
      → IsIndexed l (touch_last a pk n s now i)
  unfolding touch_last
  touch_last-IsIndexed pk n s now i h = elim (Option-cases (lookup c.pub_dec pk i.feeds)) [
    | inl e ↦ rw (e, touch_last) h
    | inr (hs, e) ↦
        let (t, there, agree) = feed_there l pk hs i h e in
        elim (Option-cases (lookup ℕ_discrete n hs.h)) [
          | inl e' ↦ rw (e, touch_last, e') h
          | inr (x, e') ↦ rw (e, touch_last, e') (touched hs t there agree x e')
        ]
  ]
    where
      touched :
          (hs : IndexHeads c) (t : HeadsTree c)
          → l.tree i.db pk ≡ some t
          → ((m : ℕ) → HeadAgrees (lookup ℕ_discrete m hs.h) (t m))
          → (x : Option (DataRoot c)) → lookup ℕ_discrete n hs.h ≡ some x
          → IsIndexed l (elim x [
            | none ↦ i
            | some dr ↦
                if dr.seq == s
                then record i {
                  feeds =
                      insert c.pub_dec pk
                        (record hs {
                          h = insert ℕ_discrete n (some (record dr { access = now })) hs.h;
                        })
                        i.feeds;
                }
                else i
          ])
      touched hs t there agree none e' = h
      touched hs t there agree (some dr) e' = elim (Bool-cases (dr.seq == s)) [
        | inr b ↦ rw b h
        | inl b ↦ rw b λ q.
            let (rs, here, last) = head_there l n (some dr) hs t agree e' in
            set_feed-agree pk _ i.feeds (l.tree i.db) h
              (rw there (set_head-agree n _ hs.h t agree (rw here last))) q
      ]

  -- Whichever head becomes the active one, the last Root is replaced.
  pub put_last-h :
      (n : ℕ) (dr : DataRoot c) (time : ℤ) (hs : IndexHeads c)
      → (put_last n dr time hs).h ≡ insert ℕ_discrete n (some dr) hs.h
  unfolding put_last
  put_last-h n dr time hs = elim (Bool-cases (ltb_ℤ hs.activet time)) [
    | inl b ↦ rw b
    | inr b ↦ rw b
  ]

  -- What the transaction of `addRoot` has done when it succeeds.
  pub record IsSaved (r : Root c) (t : HeadsTree c) (db db' : a.Db) (dr : DataRoot c) : Type 0 where
    pub rs : RootsTree c
    pub before : rs ≡ get_or (t r.nonce) no_roots
    pub same_seq : dr.seq ≡ r.seq
    pub same_facts : facts dr ≡ facts (data_root r)
    pub trees :
        (q : c.PubKey)
        → l.tree db' q
          ≡ put_heads
              (put_heads (l.tree db) r.feed (some (put_roots t r.nonce (some rs))))
              r.feed
              (some (
                put_roots
                  (put_roots t r.nonce (some rs))
                  r.nonce
                  (some (put_facts rs r.seq (some (get_or (rs r.seq) (facts dr)))))))
              q

  pub save_root-IsSaved :
      (r : Root c) (now : ℤ) (t : HeadsTree c) (db : a.Db) (x : Bool × DataRoot c)
      → l.tree db r.feed ≡ some t
      → (save_root a r now db).0 ≡ returns x none
      → IsSaved r t db (save_root a r now db).1 x.1
  unfolding save_root
  save_root-IsSaved r now t db x there d =
      let (o, opened, s1) = after_done (a.open_heads r.feed db) _ db _ d in
      let d1 = sym (ap (λ o. o.0) s1) ∙ d in
      let (y, added, s2) = then_on_done (a.add_head r.feed r.nonce db) _ _ d1 in
      let d2 = sym (ap (λ o. o.0) s2) ∙ d1 in
      let db1 = (a.add_head r.feed r.nonce db).1 in
      let (have, known, s3) = after_done (a.has_root r.feed r.nonce r.seq db1) _ db1 _ d2 in
      let d3 = sym (ap (λ o. o.0) s3) ∙ d2 in
      let (dr, set, s4) = then_on_done (a.set_root r.feed r.nonce (data_root r) now db1) _ _ d3 in
      let d4 = sym (ap (λ o. o.0) s4) ∙ d3 in
      let rs : RootsTree c = get_or (t r.nonce) no_roots in
      let t1 : HeadsTree c = put_roots t r.nonce (some rs) in
      let trees1 : (q : c.PubKey) → l.tree db1 q ≡ put_heads (l.tree db) r.feed (some t1) q =
        λ q. l.tree-add_head r.feed q r.nonce db t there added in
      let there1 : l.tree db1 r.feed ≡ some t1 =
        trees1 r.feed ∙ if_pos (c.pub_dec r.feed r.feed) refl _ _ in
      let here1 : t1 r.nonce ≡ some rs = if_pos (ℕ_discrete r.nonce r.nonce) refl _ _ in
      let (seqs, fs) = l.set_root_same r.feed r.nonce (data_root r) dr now db1 set in
      let same : dr ≡ x.1 = cc in
      let stored : (a.set_root r.feed r.nonce (data_root r) now db1).1 ≡ (save_root a r now db).1 =
        sym (ap (λ o. o.1) (s1 ∙ s2 ∙ s3 ∙ s4)) in
      let put : DataRoot c → Option (HeadsTree c) = λ y.
        some
          (put_roots t1 r.nonce (some (put_facts rs r.seq (some (get_or (rs r.seq) (facts y)))))) in
      subst (IsSaved r t db (save_root a r now db).1) same (record {
        rs = rs;
        before = refl;
        same_seq = seqs;
        same_facts = fs;
        trees = λ q.
            ap (λ db. l.tree db q) (sym stored)
            ∙ l.tree-set_root r.feed q r.nonce (data_root r) dr now db1 t1 rs there1 here1 set
            ∙ ap
                (λ (f : Facts c).
                  put_heads (l.tree db1) r.feed
                    (some (
                      put_roots t1 r.nonce
                        (some (put_facts rs r.seq (some (get_or (rs r.seq) f))))))
                    q)
                (sym fs)
            ∙ ap (ite (c.pub_dec r.feed q) (put dr)) (trees1 q);
      })

  -- The Root that was saved is the last one of its head, if it was later than the one before.
  saved-IsLast :
      (r : Root c) (rs : RootsTree c) (dr : DataRoot c)
      → dr.seq ≡ r.seq
      → ((s : ℕ) → r.seq ≤ s → rs s ≡ none)
      → IsLast (some dr) (put_facts rs r.seq (some (get_or (rs r.seq) (facts dr))))
  saved-IsLast r rs dr same none_later = (
    if_pos (ℕ_discrete r.seq dr.seq) (sym same) _ _
        ∙ ap (λ o. some (get_or o (facts dr))) (none_later r.seq (omega arith)),
    λ s lt. if_neg (ℕ_discrete r.seq s) (λ e. omega arith) _ _ ∙ none_later s (omega arith),
  )

  pub put_root-found :
      (r : Root c) (ir : Option (DataRoot c)) (have : Bool) (dr : DataRoot c) (hs : IndexHeads c)
      (i : Index a)
      → ((x : DataRoot c) → ir ≡ some x → x.seq ≤ r.seq)
      → lookup c.pub_dec r.feed i.feeds ≡ some hs
      → (put_root a r ir have dr i).1
        ≡ record i { feeds = insert c.pub_dec r.feed (put_last r.nonce dr r.time hs) i.feeds }
  unfolding put_root
  put_root-found r none have dr hs i early e = rw (e, put_root)
  put_root-found r (some x) have dr hs i early e =
      let b : ltb r.seq x.seq ≡ false = ground (arith, early x refl) in rw (e, b, put_root)

  -- No Root of the head is as late as the new one.
  none_later :
      (r : Root c) (hs : IndexHeads c) (t : HeadsTree c)
      → ((m : ℕ) → HeadAgrees (lookup ℕ_discrete m hs.h) (t m))
      → ((x : DataRoot c) → lookup ℕ_discrete r.nonce hs.h ≡ some (some x) → x.seq < r.seq)
      → (s : ℕ) → r.seq ≤ s
      → get_or (t r.nonce) no_roots s ≡ none
  none_later r hs t agree newer s le =
      go (lookup ℕ_discrete r.nonce hs.h) (t r.nonce) (agree r.nonce) newer
    where
      go :
          (x : Option (Option (DataRoot c))) (o : Option (RootsTree c))
          → HeadAgrees x o
          → ((y : DataRoot c) → x ≡ some (some y) → y.seq < r.seq)
          → get_or o no_roots s ≡ none
      go x none h n = refl
      go none (some rs) h n = absurd h
      go (some none) (some rs) h n = h s
      go (some (some y)) (some rs) h n = h.1 s (omega (arith, n y refl))

  -- The index once the Root has been saved.
  pub put-IsIndexed :
      (r : Root c) (dr : DataRoot c) (hs : IndexHeads c) (t : HeadsTree c) (i : Index a) (db : a.Db)
      → IsIndexed l i
      → ((m : ℕ) → HeadAgrees (lookup ℕ_discrete m hs.h) (t m))
      → ((x : DataRoot c) → lookup ℕ_discrete r.nonce hs.h ≡ some (some x) → x.seq < r.seq)
      → IsSaved r t i.db db dr
      → IsIndexed l (record i {
        feeds = insert c.pub_dec r.feed (put_last r.nonce dr r.time hs) i.feeds;
        db = db;
      })
  put-IsIndexed r dr hs t i db h agree newer sv q =
      rw (sv.trees q, lookup-insert)
        (elim (c.pub_dec r.feed q) [
          | no p ↦ rw (if_neg _ p, if_neg _ p, if_neg _ p) (h q)
          | yes p ↦
              rw (if_pos _ p, if_pos _ p)
                λ m.
                  rw (put_last-h, lookup-insert)
                    (elim (ℕ_discrete r.nonce m) [
                      | no p' ↦ rw (if_neg _ p', if_neg _ p', if_neg _ p') (agree m)
                      | yes p' ↦
                          rw (if_pos _ p', if_pos _ p')
                            (saved-IsLast r sv.rs dr sv.same_seq (λ s le.
                              ap (λ rs. rs s) sv.before ∙ none_later r hs t agree newer s le))
                    ])
        ])
