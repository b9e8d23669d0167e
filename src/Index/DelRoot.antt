-- ===== src/Index/DelRoot.antt =====
-- skyobject/index.go: `delRoot` against the database.
use cxo.Prelude.{
  ℕ, ◌≡◌, refl, sym, ap, ◌∙◌, subst, Bool, true, false, Option, none, some, ok, ite, if_pos, if_neg,
  Outcome, returns, ℕ_discrete, inl, inr, arith, Result-cases, Bool-cases, ◌==◌, if◌then◌else◌,
}
use cxo.Prelude.Int.{ℤ, pos, ◌==ℤ◌}
use cxo.GoMap.{insert, lookup-insert}
use cxo.Cipher.{Cipher}
use cxo.Data.{DataRoot}
use cxo.IdxDb.{IdxApi, IsLast, RootsTree, HeadsTree, last_of}
use cxo.IdxDb.Laws.{IsIdxDb, put_heads, put_roots, put_facts}
use cxo.Index.{Index, IndexHeads, active_of, set_active, head_of}
use cxo.Index.Delete.{
  Removal, look_for_last, not_last, find_last, root_from_db, put_removal, reactivate, after_removal,
  root_removed, del_root,
}
use cxo.Index.Agree.{
  HeadAgrees, FeedAgrees, IsIndexed, put_heads-agree, put_feed-agree, feed_there, head_there,
  head_of-found, after_done, then_on_done, tx_then_keeps,
}
use mathlib.Core.List.{lookup}

module _ {c : Cipher} (a : IdxApi c) where
  -- `setActive` keeps the heads.
  set_active-h : (hs hs' : IndexHeads c) → set_active hs ≡ ok hs' → hs'.h ≡ hs.h
  unfolding set_active
  set_active-h hs hs' e = elim (Result-cases (active_of hs.h (pos 0) 0)) [
    | inl (x, f) ↦
        let shape : set_active hs ≡ ok (record hs { activet = x.0; activen = x.1 }) =
          rw (f, set_active) refl in
        let same : record hs { activet = x.0; activen = x.1 } ≡ hs' = cc in
        ap (λ (z : IndexHeads c). z.h) (sym same)
    | inr (inl (y, f)) ↦ absurd (ground arith)
    | inr (inr f) ↦ absurd (ground arith)
  ]

  reactivate-h :
      (ir : Option (DataRoot c)) (hs hs' : IndexHeads c)
      → reactivate a ir hs ≡ ok hs'
      → hs'.h ≡ hs.h
  reactivate-h none hs hs' e = absurd (ground arith)
  reactivate-h (some ir) hs hs' e = elim (Bool-cases (ir.time ==ℤ hs.activet)) [
    | inl b ↦
        let shape : reactivate a (some ir) hs ≡ set_active hs = rw b refl in
        set_active-h hs hs' (sym shape ∙ e)
    | inr b ↦
        let shape : reactivate a (some ir) hs ≡ ok hs = rw b refl in
        let same : hs ≡ hs' = cc in ap (λ (z : IndexHeads c). z.h) (sym same)
  ]

  -- After a removal the heads of the feed are those that it has put, whichever is the active one.
  after_removal-heads :
      (P : Index a → Type 0) (pk : c.PubKey) (n : ℕ) (x : Removal a) (hs : IndexHeads c)
      (i : Index a)
      → lookup c.pub_dec pk i.feeds ≡ some hs
      → ((hs' : IndexHeads c)
          → hs'.h ≡ (put_removal a n x hs).h
          → P (record i { feeds = insert c.pub_dec pk hs' i.feeds }))
      → P (after_removal a pk n x i).1
  unfolding after_removal
  after_removal-heads P pk n x hs i e step =
      let put = put_removal a n x hs in
      rw (e, after_removal)
        (elim (Result-cases (reactivate a x.ir put)) [
          | inl (hs', f) ↦ rw f (step hs' (reactivate-h x.ir put hs' f))
          | inr (inl (y, f)) ↦ rw f (step put refl)
          | inr (inr f) ↦ rw f (step put refl)
        ])

module _ {c : Cipher} {a : IdxApi c} (l : IsIdxDb a) where
  -- What the transaction of `delRoot` has done when it succeeds: `x` is what it found out.
  abbrev IsRemoved :
      c.PubKey
      → ℕ
      → ℕ
      → Option (DataRoot c)
      → HeadsTree c
      → RootsTree c
      → a.Db
      → a.Db
      → Removal a
      → Type 0
  IsRemoved pk n s ir t rs db db' x =
      (h : c.Sha256) × ((find_last a pk n s h ir db').0 ≡ returns x none)
      × ((q : c.PubKey)
          → l.tree db' q
            ≡ put_heads (l.tree db) pk (some (put_roots t n (some (put_facts rs s none)))) q)

  find_last-db :
      (pk : c.PubKey) (n s : ℕ) (h : c.Sha256) (ir : Option (DataRoot c)) (db : a.Db)
      → (find_last a pk n s h ir db).1 ≡ db
  unfolding find_last
  find_last-db pk n s h none db = refl
  find_last-db pk n s h (some ir) db = elim (Bool-cases (s == ir.seq)) [
    | inl b ↦ rw b refl
    | inr b ↦ rw b refl
  ]

  root_from_db-IsRemoved :
      (pk : c.PubKey) (n s : ℕ) (now : ℤ) (ir : Option (DataRoot c)) (t : HeadsTree c)
      (rs : RootsTree c) (db : a.Db) (x : Removal a)
      → l.tree db pk ≡ some t
      → t n ≡ some rs
      → (root_from_db a pk n s now ir db).0 ≡ returns x none
      → IsRemoved pk n s ir t rs db (root_from_db a pk n s now ir db).1 x
  unfolding root_from_db
  root_from_db-IsRemoved pk n s now ir t rs db x there here d =
      let (o, opened, s1) = after_done (a.open_heads pk db) _ db _ d in
      let d1 = sym (ap (λ o. o.0) s1) ∙ d in
      let (o', opened', s2) = after_done (a.open_roots pk n db) _ db _ d1 in
      let d2 = sym (ap (λ o. o.0) s2) ∙ d1 in
      let (dr, got, s3) = then_on_done (a.get_root pk n s now db) _ _ d2 in
      let d3 = sym (ap (λ o. o.0) s3) ∙ d2 in
      let db1 = (a.get_root pk n s now db).1 in
      let (y, gone, s4) = then_on_done (a.del_root pk n s db1) _ _ d3 in
      let d4 = sym (ap (λ o. o.0) s4) ∙ d3 in
      let db2 = (a.del_root pk n s db1).1 in
      let end = find_last-db pk n s dr.hash ir db2 in
      let trees : (q : c.PubKey)
          → l.tree db2 q
            ≡ put_heads (l.tree db) pk (some (put_roots t n (some (put_facts rs s none)))) q =
        λ q.
          l.tree-del_root pk q n s db1 t rs (l.tree-get_root pk pk n s now db ∙ there) here gone
          ∙ ap (ite (c.pub_dec pk q) (some (put_roots t n (some (put_facts rs s none)))))
              (l.tree-get_root pk q n s now db) in
      let stored : db2 ≡ (root_from_db a pk n s now ir db).1 =
        sym (ap (λ o. o.1) (s1 ∙ s2 ∙ s3 ∙ s4) ∙ end) in
      subst (λ (z : a.Db). IsRemoved pk n s ir t rs db z x) stored (dr.hash, d4, trees)

  -- The last Root after the removal.
  removed-IsLast :
      (pk : c.PubKey) (n s : ℕ) (h : c.Sha256) (ir : Option (DataRoot c)) (hs : IndexHeads c)
      (t : HeadsTree c) (rs' : RootsTree c) (rs : RootsTree c) (db : a.Db) (x : Removal a)
      → (find_last a pk n s h ir db).0 ≡ returns x none
      → lookup ℕ_discrete n hs.h ≡ some ir
      → ((m : ℕ) → HeadAgrees (lookup ℕ_discrete m hs.h) (t m))
      → IsLast ir rs
      → rs' ≡ put_facts rs s none
      → IsLast (last_of (a.roots pk n db)) rs'
      → (m : ℕ)
      → HeadAgrees (lookup ℕ_discrete m (put_removal a n x hs).h) (put_roots t n (some rs') m)
  unfolding find_last
  removed-IsLast pk n s h none hs t rs' rs db x d e agree last put newer m = absurd (ground arith)
  removed-IsLast pk n s h (some ir) hs t rs' rs db x d e agree last put newer m =
      branch (s == ir.seq) refl d
    where
      found :
          (o : Option (DataRoot c))
          → (put_removal a n (look_for_last a h ir o) hs).h ≡ insert ℕ_discrete n o hs.h
      found none = refl
      found (some r) = refl

      -- another Root than the last one was removed
      kept : (s ≡ ir.seq → ⊥) → IsLast (some ir) rs'
      kept other = subst (IsLast (some ir)) (sym put) (
        if_neg (ℕ_discrete s ir.seq) other _ _ ∙ last.0,
        λ k lt. elim (ℕ_discrete s k) [
          | yes p ↦ if_pos (ℕ_discrete s k) p _ _
          | no p ↦ if_neg (ℕ_discrete s k) p _ _ ∙ last.1 k lt
        ],
      )

      same_heads :
          IsLast (some ir) rs' → HeadAgrees (lookup ℕ_discrete m hs.h) (put_roots t n (some rs') m)
      same_heads last' = elim (ℕ_discrete n m) [
        | yes p ↦ rw (if_pos _ p, ← p, e) last'
        | no p ↦ rw (if_neg _ p) (agree m)
      ]

      branch :
          (b : Bool)
          → (s == ir.seq) ≡ b
          → (if◌then◌else◌ {A = Outcome (Removal a) × a.Db} b
              (returns (look_for_last a h ir (last_of (a.roots pk n db))) none, db)
              (returns (not_last a h (some ir)) none, db)).0
            ≡ returns x none
          → HeadAgrees (lookup ℕ_discrete m (put_removal a n x hs).h) (put_roots t n (some rs') m)
      branch true q d =
          let o = last_of (a.roots pk n db) in
          let same : look_for_last a h ir o ≡ x = ground arith in
          subst
            (λ (y : Removal a).
              HeadAgrees (lookup ℕ_discrete m (put_removal a n y hs).h)
                (put_roots t n (some rs') m))
            same (rw (found o) (put_heads-agree n o rs' hs.h t agree newer m))
      branch false q d =
          let same : not_last a h (some ir) ≡ x = ground arith in
          subst
            (λ (y : Removal a).
              HeadAgrees (lookup ℕ_discrete m (put_removal a n y hs).h)
                (put_roots t n (some rs') m))
            same (same_heads (kept (λ p. ground arith)))

  -- `delRoot` keeps the index in agreement with the database, whether it succeeds, fails or panics.
  pub del_root-IsIndexed :
      (pk : c.PubKey) (n s : ℕ) (now : ℤ) (i : Index a)
      → IsIndexed l i
      → IsIndexed l (del_root a pk n s now i).1
  unfolding del_root
  del_root-IsIndexed pk n s now i h = elim (Result-cases (head_of a pk n i.feeds)) [
    | inr (inl (e, f)) ↦ rw (f, del_root) h
    | inr (inr f) ↦ rw (f, del_root) h
    | inl (ir, f) ↦
        let (hs, e, e') = head_of-found a pk n i.feeds f in
        let (t, there, agree) = feed_there l pk hs i h e in
        let (rs, here, last) = head_there l n ir hs t agree e' in
        rw (f, del_root)
          (tx_then_keeps a (IsIndexed l) (root_removed a pk n) (root_from_db a pk n s now ir) i
            (λ x y. refl) refl h
            λ x d.
              let (hash, found, trees) =
                root_from_db-IsRemoved pk n s now ir t rs i.db x there here d in
              let db = (root_from_db a pk n s now ir i.db).1 in
              after_removal-heads a (IsIndexed l) pk n x hs (record i { db = db }) e
                λ hs' same q. removed hs e e' t agree rs last db hash x found trees hs' same q)
  ]
    where
      removed :
          {ir : Option (DataRoot c)} (hs : IndexHeads c)
          → lookup c.pub_dec pk i.feeds ≡ some hs
          → lookup ℕ_discrete n hs.h ≡ some ir
          → (t : HeadsTree c) → ((m : ℕ) → HeadAgrees (lookup ℕ_discrete m hs.h) (t m))
          → (rs : RootsTree c) → IsLast ir rs
          → (db : a.Db) (hash : c.Sha256) (x : Removal a)
          → (find_last a pk n s hash ir db).0 ≡ returns x none
          → ((q : c.PubKey)
              → l.tree db q
                ≡ put_heads (l.tree i.db) pk (some (put_roots t n (some (put_facts rs s none)))) q)
          → (hs' : IndexHeads c) → hs'.h ≡ (put_removal a n x hs).h
          → (q : c.PubKey)
          → FeedAgrees (lookup c.pub_dec q (insert c.pub_dec pk hs' i.feeds)) (l.tree db q)
      removed hs e e' t agree rs last db hash x found trees hs' same q =
          let rs' = put_facts rs s none in
          let t' = put_roots t n (some rs') in
          let there' : l.tree db pk ≡ some t' = trees pk ∙ if_pos (c.pub_dec pk pk) refl _ _ in
          let here' : t' n ≡ some rs' = if_pos (ℕ_discrete n n) refl _ _ in
          let newer = l.roots_lem pk n db t' rs' there' here' in
          rw (trees q) (
            put_feed-agree pk (some hs') (some t') i.feeds _ (l.tree i.db)
              (λ j. lookup-insert c.pub_dec pk j hs' i.feeds) h
              (λ m.
                rw same
                  (removed-IsLast pk n s hash _ hs t rs' rs db x found e' agree last refl newer m))
              q)
