-- ===== src/Index/Saved.antt =====
-- skyobject/index.go: the last Root of a head after `AddRoot` has saved a new one.
use cxo.Prelude.{
  ℕ, ◌≤◌, ◌≡◌, refl, sym, ap, ◌∙◌, subst, Bool, true, false, Option, none, some, Error, Result, ok,
  err, panic, if_pos, Outcome, returns, panics, ℕ_discrete, inl, inr, arith, Option-cases, ◌==◌,
  if◌then◌else◌,
}
use cxo.Prelude.Int.{ℤ}
use cxo.GoMap.{insert, lookup-insert}
use cxo.Cipher.{Cipher}
use cxo.Data.{DataRoot}
use cxo.Registry.{Root}
use cxo.IdxDb.{IdxApi, tx, facts}
use cxo.IdxDb.Laws.{IsIdxDb}
use cxo.Index.{
  Index, IndexHeads, after, in_tx, last_root, find_root, root_in_db, got_root, put_last,
}
use cxo.Index.Add.{data_root, refusal, save_root, put_root, saved, add_found, add_root}
use cxo.Index.Agree.{IsIndexed, feed_there, head_of-known, lookup-set}
use cxo.Index.Find.{find_root-IsIndexed, tx_value, IsStored, last-IsStored}
use cxo.Index.Newer.{save_root-IsSaved, put_root-found, put_last-h}
use cxo.Index.AddRoot.{save_root-feed}

module _ {c : Cipher} {a : IdxApi c} (l : IsIdxDb a) where
  root_in_db-opened :
      (pk : c.PubKey) (n s : ℕ) (now : ℤ) (dr : DataRoot c) (db : a.Db)
      → IsStored l pk n dr db
      → root_in_db a pk n s now dr db ≡ got_root a (a.get_root pk n s now db)
  unfolding root_in_db
  root_in_db-opened pk n s now dr db (t, rs, there, here, _) =
      rw (l.open_heads_lem pk db, there, l.open_roots_lem pk n db t there, here) refl

  got_root-seq :
      (pk : c.PubKey) (n s : ℕ) (now : ℤ) (dr x : DataRoot c) (db : a.Db) (e : Option Error)
      → IsStored l pk n dr db
      → (root_in_db a pk n s now dr db).0 ≡ returns (some x) e
      → x.seq ≡ s
  got_root-seq pk n s now dr x db e stored v =
      let (t, rs, there, here, _) = stored in
      (l.get_root_found pk n s now db t rs x there here
        (got _ (sym (ap (λ o. o.0) (root_in_db-opened pk n s now dr db stored)) ∙ v))).0
    where
      got : (o : Result (DataRoot c) × a.Db) → (got_root a o).0 ≡ returns (some x) e → o.0 ≡ ok x
      got (ok z, db') h = ground arith
      got (err y, db') h = ground arith
      got (panic, db') h = ground arith

  -- Beside an error `findRoot` gives no Root but the one that was asked for.
  find_root_failed :
      (pk : c.PubKey) (n s : ℕ) (now : ℤ) (x : DataRoot c) (i : Index a) (e : Error)
      → IsIndexed l i
      → (find_root a pk n s now i).0 ≡ returns (some x) (some e)
      → x.seq ≡ s
  unfolding find_root
  find_root_failed pk n s now x i e h r = go (last_root a pk n i) refl r
    where
      branch :
          (dr : DataRoot c) (b : Bool)
          → last_root a pk n i ≡ ok dr
          → (if b then (returns (some dr) none, i) else in_tx a (root_in_db a pk n s now dr) i).0
            ≡ returns (some x) (some e)
          → x.seq ≡ s
      branch dr true f r = absurd (ground arith)
      branch dr false f r =
          let stored = last-IsStored l pk n dr i h f in
          elim (tx_value l (root_in_db a pk n s now dr) i.db r) [
            | inl v ↦ got_root-seq pk n s now dr x i.db (some e) stored v
            | inr (y, failed, v) ↦ got_root-seq pk n s now dr x i.db none stored v
          ]

      go :
          (o : Result (DataRoot c))
          → last_root a pk n i ≡ o
          → (after o none i (λ dr.
              if dr.seq == s
              then (returns (some dr) none, i)
              else in_tx a (root_in_db a pk n s now dr) i)).0
            ≡ returns (some x) (some e)
          → x.seq ≡ s
      go (ok dr) f r = branch dr (dr.seq == s) f r
      go (err y) f r = absurd (ground arith)
      go panic f r = absurd (ground arith)

  abbrev pub IsLastRoot : Root c → Index a → Type 0
  IsLastRoot r i =
      (dr : DataRoot c) × (last_root a r.feed r.nonce i ≡ ok dr)
      × (dr.seq ≡ r.seq)
      × (facts dr ≡ facts (data_root r))

  put-IsLastRoot :
      (r : Root c) (dr : DataRoot c) (hs : IndexHeads c) (i : Index a) (db : a.Db)
      → dr.seq ≡ r.seq
      → facts dr ≡ facts (data_root r)
      → IsLastRoot r (record i {
        feeds = insert c.pub_dec r.feed (put_last r.nonce dr r.time hs) i.feeds;
        db = db;
      })
  unfolding last_root
  put-IsLastRoot r dr hs i db seqs fs = (
    dr,
    rw
        (
          head_of-known a r.feed r.nonce (some dr) (put_last r.nonce dr r.time hs)
              (insert c.pub_dec r.feed (put_last r.nonce dr r.time hs) i.feeds)
              (lookup-set r.feed (put_last r.nonce dr r.time hs) i.feeds)
              (rw (put_last-h l) (
                lookup-insert ℕ_discrete r.nonce r.nonce (some dr) hs.h
                ∙ if_pos (ℕ_discrete r.nonce r.nonce) refl _ _)),
          last_root,
        )
        refl,
    seqs,
    fs,
  )

  saved_done :
      (r : Root c) (ir : Option (DataRoot c)) (o : Outcome (Bool × DataRoot c) × Index a) {b : Bool}
      → (saved a r ir o).0 ≡ returns b none
      → (x : Bool × DataRoot c) × (o.0 ≡ returns x none)
        × (saved a r ir o ≡ put_root a r ir x.0 x.1 o.1)
  saved_done r ir (returns (have, dr) none, i) d = ((have, dr), refl, refl)
  saved_done r ir (returns (have, dr) (some e), i) d = absurd (ground arith)
  saved_done r ir (panics, i) d = absurd (ground arith)

  saved-IsLastRoot :
      (r : Root c) (now : ℤ) (ir : Option (DataRoot c)) (i : Index a)
      → IsIndexed l i
      → ((x : DataRoot c) → ir ≡ some x → x.seq ≤ r.seq)
      → (saved a r ir (in_tx a (save_root a r now) i)).0 ≡ returns false none
      → IsLastRoot r (saved a r ir (in_tx a (save_root a r now) i)).1
  saved-IsLastRoot r now ir i h early d =
      let (x, d1, shape) = saved_done r ir (in_tx a (save_root a r now) i) d in
      elim (tx_value l (save_root a r now) i.db d1) [
        | inr (y, bad, _) ↦ absurd (ground arith)
        | inl d2 ↦
            let (hs, e) = save_root-feed l r now i h d2 in
            let (t, there, agree) = feed_there l r.feed hs i h e in
            let sv = save_root-IsSaved l r now t i.db x there d2 in
            let db = (tx a (save_root a r now) i.db).1 in
            subst (IsLastRoot r)
              (sym (
                ap (λ o. o.1) shape
                ∙ put_root-found l r ir x.0 x.1 hs (record i { db = db }) early e))
              (put-IsLastRoot r x.1 hs i db sv.same_seq sv.same_facts)
      ]

  add_found-IsLastRoot :
      (r : Root c) (now : ℤ) (out : Outcome (Option (DataRoot c))) (i : Index a)
      → IsIndexed l i
      → ((x : DataRoot c) (e : Error) → out ≡ returns (some x) (some e) → x.seq ≡ r.seq)
      → (add_found a r now (out, i)).0 ≡ returns false none
      → IsLastRoot r (add_found a r now (out, i)).1
  add_found-IsLastRoot r now (returns ir none) i h early d = absurd (ground arith)
  add_found-IsLastRoot r now (returns ir (some Error.not_found)) i h early d =
      saved-IsLastRoot r now ir i h (λ x e. omega (arith, early x Error.not_found (rw e))) d
  add_found-IsLastRoot r now (returns ir (some Error.no_such_head)) i h early d =
      saved-IsLastRoot r now ir i h (λ x e. omega (arith, early x Error.no_such_head (rw e))) d
  add_found-IsLastRoot r now (returns ir (some e)) i h early d = absurd (ground arith)
  add_found-IsLastRoot r now panics i h early d = absurd (ground arith)

  -- After `AddRoot` has saved a Root that the database did not have, the last Root of its head is
  -- this one, whatever its number.
  pub add_root_last :
      (r : Root c) (now : ℤ) (i : Index a)
      → IsIndexed l i
      → (add_root a r now i).0 ≡ returns false none
      → IsLastRoot r (add_root a r now i).1
  unfolding add_root
  add_root_last r now i h d = elim (Option-cases (refusal r)) [
    | inr (e, f) ↦ absurd (refused e f d)
    | inl f ↦
        let out = find_root a r.feed r.nonce r.seq now i in
        let shape : add_root a r now i ≡ add_found a r now out = rw (f, add_root) refl in
        rw shape (
          add_found-IsLastRoot r now out.0 out.1
            (find_root-IsIndexed l r.feed r.nonce r.seq now i h)
            (λ x e v. find_root_failed r.feed r.nonce r.seq now x i e h v)
            (sym (ap (λ o. o.0) shape) ∙ d))
  ]
    where
      refused : (e : Error) → refusal r ≡ some e → (add_root a r now i).0 ≡ returns false none → ⊥
      refused e f d =
          let shape : add_root a r now i ≡ (returns false (some e), i) = rw (f, add_root) refl in
          let bad = sym (ap (λ o. o.0) shape) ∙ d in ground arith
