-- ===== src/Index/Flaws.antt =====
-- skyobject/index.go: where the index is not in agreement with its database, or panics.
use cxo.Prelude.{
  ℕ, ◌≡◌, refl, sym, ap, ◌∙◌, subst, true, false, List, [], ◌∷◌, Option, none, some, Error, err,
  panic, if_pos, Outcome, returns, panics, ℕ_discrete, arith,
}
use cxo.Prelude.Int.{ℤ, pos, ◌==ℤ◌}
use cxo.GoMap.{GoMap, insert, delete, lookup-insert, lookup-delete}
use cxo.Cipher.{Cipher}
use cxo.Data.{DataRoot}
use cxo.IdxDb.{IdxApi}
use cxo.Index.{
  Index, IndexHeads, active_of, set_active, active_head, has_head, add_head, in_tx, on_success,
  head_of, head_to_db, new_index_heads, with_blank_heads,
}
use cxo.Index.Delete.{
  Removal, del_head, del_root, head_from_db, root_from_db, after_removal, root_removed,
  look_for_last, without_head,
}
use cxo.Index.Agree.{tx_done, after_done, head_of-found, head_of-known, lookup-set}
use cxo.Index.Keeps.{without_head-found}
use mathlib.Core.List.{lookup}

module _ {c : Cipher} (a : IdxApi c) where
  head_of-missing :
      (pk : c.PubKey) (n : ℕ) (hs : IndexHeads c) (feeds : GoMap c.PubKey (IndexHeads c))
      → lookup c.pub_dec pk feeds ≡ some hs
      → lookup ℕ_discrete n hs.h ≡ none
      → head_of a pk n feeds ≡ err Error.no_such_head
  unfolding head_of
  head_of-missing pk n hs feeds e e' = rw (e, head_of, e') refl

  has_head-missing :
      (pk : c.PubKey) (n : ℕ) (hs : IndexHeads c) (i : Index a)
      → lookup c.pub_dec pk i.feeds ≡ some hs
      → lookup ℕ_discrete n hs.h ≡ none
      → has_head a pk n i ≡ false
  unfolding has_head
  has_head-missing pk n hs i e e' = rw (head_of-missing pk n hs i.feeds e e', has_head) refl

  active_head-known :
      (pk : c.PubKey) (hs : IndexHeads c) (i : Index a)
      → lookup c.pub_dec pk i.feeds ≡ some hs
      → active_head a pk i ≡ hs.activen
  unfolding active_head
  active_head-known pk hs i e = rw (e, active_head) refl

  -- `AddHead` of a head that is new to its feed, when it succeeds, leaves the feed with no head in
  -- the index: neither the new one nor those that were there.
  pub add_head_clears :
      (pk : c.PubKey) (n m : ℕ) (i : Index a)
      → head_of a pk n i.feeds ≡ err Error.no_such_head
      → (add_head a pk n i).0 ≡ returns tt none
      → has_head a pk m (add_head a pk n i).1 ≡ false
  unfolding add_head
  add_head_clears pk n m i e d =
      let shape : add_head a pk n i
          ≡ on_success a tt (λ _. with_blank_heads a pk) (in_tx a (head_to_db a pk n) i) =
        rw (e, add_head) refl in
      let done =
        tx_done a tt (λ _. with_blank_heads a pk) (head_to_db a pk n) i
          (sym (ap (λ o. o.0) shape) ∙ d) in
      rw (shape, done)
        (has_head-missing pk m new_index_heads _ (lookup-set pk new_index_heads i.feeds)
          (unfold lookup in refl))

  without_head-none :
      (pk : c.PubKey) (n : ℕ) (hs : IndexHeads c) (i : Index a)
      → lookup c.pub_dec pk i.feeds ≡ some hs
      → (active_head a pk (without_head a pk n i) ≡ hs.activen)
        × (has_head a pk n (without_head a pk n i) ≡ false)
  without_head-none pk n hs i e =
      let hs' : IndexHeads c = record hs { h = delete ℕ_discrete n hs.h } in
      let set = lookup-set pk hs' i.feeds in
      rw (without_head-found a pk n hs i e) (
        active_head-known pk hs' _ set,
        has_head-missing pk n hs' _ set
            (lookup-delete ℕ_discrete n n hs.h ∙ if_pos (ℕ_discrete n n) refl _ _),
      )

  -- `delHead` of the active head, when it succeeds, removes the head and leaves it the active one.
  pub del_head_active :
      (pk : c.PubKey) (n : ℕ) (l : List c.Sha256) (i : Index a)
      → active_head a pk i ≡ n
      → (del_head a pk n i).0 ≡ returns l none
      → (active_head a pk (del_head a pk n i).1 ≡ n)
        × (has_head a pk n (del_head a pk n i).1 ≡ false)
  unfolding del_head
  del_head_active pk n l i e d =
      let (dr, found, shape) = after_done (head_of a pk n i.feeds) [] i _ d in
      let (hs, f, f') = head_of-found a pk n i.feeds found in
      let done =
        tx_done a [] (λ _. without_head a pk n) (head_from_db a pk n) i
          (sym (ap (λ o. o.0) shape) ∙ d) in
      let (active, none_there) =
        without_head-none pk n hs (record i { db = (head_from_db a pk n i.db).1 }) f in
      rw (shape, done) (active ∙ sym (active_head-known pk hs i f) ∙ e, none_there)

  -- A blank head makes `setActive` panic.
  active_of-blank :
      (n : ℕ) (h : GoMap ℕ (Option (DataRoot c))) (t : ℤ) (k : ℕ)
      → lookup ℕ_discrete n h ≡ some none
      → active_of h t k ≡ panic
  unfolding lookup active_of
  active_of-blank n [] t k e = ground arith
  active_of-blank n ((m, none) ∷ h) t k e = refl
  active_of-blank n ((m, some dr) ∷ h) t k e =
      ground (arith, active_of-blank n h dr.time m, active_of-blank n h t k)

  set_active-blank :
      (n : ℕ) (hs : IndexHeads c) → lookup ℕ_discrete n hs.h ≡ some none → set_active hs ≡ panic
  unfolding set_active
  set_active-blank n hs e = rw (active_of-blank n hs.h (pos 0) 0 e, set_active)

  root_removed-panics :
      (pk : c.PubKey) (n : ℕ) (x : Removal a) (o : Outcome (Removal a) × Index a)
      → o.0 ≡ returns x none
      → (after_removal a pk n x o.1).0 ≡ panics
      → (root_removed a pk n o).0 ≡ panics
  root_removed-panics pk n x (returns y none, i) e h =
      let same : x ≡ y = ground arith in
      subst (λ (z : Removal a). (after_removal a pk n z i).0 ≡ panics) same h
  root_removed-panics pk n x (returns y (some f), i) e h = absurd (ground arith)
  root_removed-panics pk n x (panics, i) e h = absurd (ground arith)

  after_removal-panics :
      (pk : c.PubKey) (n : ℕ) (ir : DataRoot c) (h : c.Sha256) (hs : IndexHeads c) (i : Index a)
      → lookup c.pub_dec pk i.feeds ≡ some hs
      → (ir.time ==ℤ hs.activet) ≡ true
      → (after_removal a pk n (look_for_last a h ir none) i).0 ≡ panics
  unfolding after_removal
  after_removal-panics pk n ir h hs i e same =
      rw
        (
          e,
          after_removal,
          same,
          set_active-blank n (record hs { h = insert ℕ_discrete n none hs.h })
              (lookup-insert ℕ_discrete n n none hs.h ∙ if_pos (ℕ_discrete n n) refl _ _),
        )
        refl

  -- `delRoot` of the only Root of a head panics, once its transaction has succeeded, if the Root has
  -- the timestamp of the active head.
  pub del_root_panics :
      (pk : c.PubKey) (n : ℕ) (now : ℤ) (ir : DataRoot c) (h : c.Sha256) (hs : IndexHeads c)
      (i : Index a)
      → lookup c.pub_dec pk i.feeds ≡ some hs
      → lookup ℕ_discrete n hs.h ≡ some (some ir)
      → (ir.time ==ℤ hs.activet) ≡ true
      → (in_tx a (root_from_db a pk n ir.seq now (some ir)) i).0
        ≡ returns (look_for_last a h ir none) none
      → (del_root a pk n ir.seq now i).0 ≡ panics
  unfolding del_root
  del_root_panics pk n now ir h hs i e e' same d =
      rw (head_of-known a pk n (some ir) hs i.feeds e e', del_root)
        (root_removed-panics pk n (look_for_last a h ir none)
          (in_tx a (root_from_db a pk n ir.seq now (some ir)) i) d
          (after_removal-panics pk n ir h hs _ e same))
