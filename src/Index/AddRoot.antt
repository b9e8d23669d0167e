-- ===== src/Index/AddRoot.antt =====
-- skyobject/index.go: `AddRoot` as a whole.
use cxo.Prelude.{
  ◌<◌, ◌≤◌, ◌≡◌, refl, sym, ap, ◌∙◌, subst, Bool, Option, none, some, Error, ok, Outcome, returns,
  panics, inl, inr, arith, Option-cases,
}
use cxo.Prelude.Int.{ℤ}
use cxo.Cipher.{Cipher}
use cxo.Data.{DataRoot}
use cxo.Registry.{Root}
use cxo.IdxDb.{IdxApi, HeadsTree}
use cxo.IdxDb.Laws.{IsIdxDb, opens}
use cxo.Index.{Index, IndexHeads, in_tx, head_of, last_root, find_root}
use cxo.Index.Add.{refusal, save_root, saved, add_found, add_root}
use cxo.Index.Agree.{FeedAgrees, IsIndexed, feed_there, after_done, tx_then_keeps}
use cxo.Index.Find.{find_root_same, find_root-IsIndexed, find_root_bound}
use cxo.Index.Newer.{touch_last-IsIndexed, save_root-IsSaved, put_root-found, put-IsIndexed}
use mathlib.Core.List.{lookup}

module _ {c : Cipher} {a : IdxApi c} (l : IsIdxDb a) where
  -- A feed whose handle is given out is in the index.
  pub save_root-feed :
      (r : Root c) (now : ℤ) (i : Index a) {x : Bool × DataRoot c}
      → IsIndexed l i
      → (save_root a r now i.db).0 ≡ returns x none
      → (hs : IndexHeads c) × (lookup c.pub_dec r.feed i.feeds ≡ some hs)
  unfolding save_root
  save_root-feed r now i h d =
      let (o, opened, s1) = after_done (a.open_heads r.feed i.db) _ i.db _ d in
      let opens_it = sym (l.open_heads_lem r.feed i.db) ∙ opened in
      go (lookup c.pub_dec r.feed i.feeds) (l.tree i.db r.feed) (h r.feed) opens_it
    where
      go :
          (x : Option (IndexHeads c)) (t : Option (HeadsTree c))
          → FeedAgrees x t
          → {o : Unit {0}} → opens Error.no_such_feed t ≡ ok o
          → (hs : IndexHeads c) × (x ≡ some hs)
      go none none f e = absurd (ground arith)
      go none (some t) f e = absurd f
      go (some hs) t f e = (hs, refl)

  saved-IsIndexed :
      (r : Root c) (now : ℤ) (ir : Option (DataRoot c)) (i : Index a)
      → IsIndexed l i
      → ((dr : DataRoot c) → head_of a r.feed r.nonce i.feeds ≡ ok (some dr) → dr.seq < r.seq)
      → ((x : DataRoot c) → ir ≡ some x → x.seq ≤ r.seq)
      → IsIndexed l (saved a r ir (in_tx a (save_root a r now) i)).1
  unfolding head_of
  saved-IsIndexed r now ir i h newer early =
      tx_then_keeps a (IsIndexed l) (saved a r ir) (save_root a r now) i (λ x e. refl) refl h
        λ x d.
          let (hs, e) = save_root-feed r now i h d in
          let (t, there, agree) = feed_there l r.feed hs i h e in
          let db = (save_root a r now i.db).1 in
          subst (IsIndexed l)
            (sym (put_root-found l r ir x.0 x.1 hs (record i { db = db }) early e))
            (put-IsIndexed l r x.1 hs t i db h agree (λ y e'. newer y (rw (e, head_of, e')))
              (save_root-IsSaved l r now t i.db x there d))

  add_found-IsIndexed :
      (r : Root c) (now : ℤ) (out : Outcome (Option (DataRoot c))) (i : Index a)
      → IsIndexed l i
      → ((dr : DataRoot c) → head_of a r.feed r.nonce i.feeds ≡ ok (some dr) → dr.seq < r.seq)
      → ((x : DataRoot c) (e : Option Error) → out ≡ returns (some x) e → x.seq ≤ r.seq)
      → IsIndexed l (add_found a r now (out, i)).1
  add_found-IsIndexed r now (returns ir none) i h newer early =
      touch_last-IsIndexed l r.feed r.nonce r.seq now i h
  add_found-IsIndexed r now (returns ir (some Error.not_found)) i h newer early =
      saved-IsIndexed r now ir i h newer (λ x e. early x (some Error.not_found) (rw e))
  add_found-IsIndexed r now (returns ir (some Error.no_such_head)) i h newer early =
      saved-IsIndexed r now ir i h newer (λ x e. early x (some Error.no_such_head) (rw e))
  add_found-IsIndexed r now (returns ir (some e)) i h newer early = h
  add_found-IsIndexed r now panics i h newer early = h

  -- `AddRoot` of a Root with a greater number than the last one of its head keeps the index in
  -- agreement with the database, whether it succeeds or fails.
  pub add_root-IsIndexed :
      (r : Root c) (now : ℤ) (i : Index a)
      → IsIndexed l i
      → ((dr : DataRoot c) → last_root a r.feed r.nonce i ≡ ok dr → dr.seq < r.seq)
      → IsIndexed l (add_root a r now i).1
  unfolding add_root
  add_root-IsIndexed r now i h newer = elim (Option-cases (refusal r)) [
    | inr (e, f) ↦ rw (f, add_root) h
    | inl f ↦
        let out = find_root a r.feed r.nonce r.seq now i in
        let (same, trees) = find_root_same l r.feed r.nonce r.seq now i in
        rw (f, add_root)
          (add_found-IsIndexed r now out.0 out.1
            (find_root-IsIndexed l r.feed r.nonce r.seq now i h)
            (λ dr e.
              newer dr
                (unfold last_root in rw (sym (ap (head_of a r.feed r.nonce) same) ∙ e, last_root)))
            (λ x e v.
              find_root_bound l r.feed r.nonce r.seq now x i e h (λ dr f. omega (arith, newer dr f))
                v))
  ]
