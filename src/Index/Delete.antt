-- ===== src/Index/Delete.antt =====
-- skyobject/index.go: `delFeed`, `delHead` and `delRoot`. What follows them, the walk over the values
-- of a deleted Root, is left out.
use cxo.Prelude.{
  ℕ, Bool, true, false, List, [], ◌∷◌, ◌++◌, Option, none, some, Error, Result, ok, err, panic,
  Outcome, returns, panics, if◌then◌else◌, ◌==◌, ℕ_discrete, map,
}
use cxo.Prelude.Int.{ℤ, ◌==ℤ◌}
use cxo.GoMap.{GoMap, insert, delete}
use cxo.Cipher.{Cipher}
use cxo.Data.{DataRoot}
use cxo.IdxDb.{IdxApi, last_of}
use cxo.Index.{Index, IndexHeads, set_active, after, then_on, in_tx, on_success, head_of}
use mathlib.Core.List.{lookup}

module _ {c : Cipher} (a : IdxApi c) where
  abbrev pub hashes : List (DataRoot c) → List c.Sha256
  hashes l = map (λ r. r.hash) l

  -- The hashes of the Root objects of every head of the index, in the order of the range.
  unfoldable pub all_hashes :
      c.PubKey → GoMap ℕ (Option (DataRoot c)) → a.Db → Result (List c.Sha256)
  all_hashes pk [] db = ok []
  all_hashes pk ((nonce, dr) ∷ h) db =
      let rest = all_hashes pk h db in
      elim (a.open_roots pk nonce db) [
        | ok _ ↦ elim rest [
          | ok l ↦ ok (hashes (a.roots pk nonce db) ++ l)
          | err e ↦ err e
          | panic ↦ panic
        ]
        | err e ↦ err e
        | panic ↦ panic
      ]

  -- The transaction of `delFeed`.
  unfoldable pub feed_from_db :
      c.PubKey → GoMap ℕ (Option (DataRoot c)) → a.Db → Outcome (List c.Sha256) × a.Db
  unfolding all_hashes
  feed_from_db pk h db = after (a.open_heads pk db) [] db λ _.
      after (all_hashes pk h db) [] db
        λ l. then_on (a.del_feed pk db) [] λ _ db. (returns l none, db)

  abbrev pub without_feed : c.PubKey → Index a → Index a
  without_feed pk i = record i { feeds = delete c.pub_dec pk i.feeds; feeds_list = [] }

  -- `delFeed`
  unfoldable pub del_feed : c.PubKey → Index a → Outcome (List c.Sha256) × Index a
  unfolding feed_from_db
  del_feed pk i = elim (lookup c.pub_dec pk i.feeds) [
    | none ↦ (returns [] (some Error.no_such_feed), i)
    | some hs ↦ on_success a [] (λ _. without_feed pk) (in_tx a (feed_from_db pk hs.h) i)
  ]

  -- The transaction of `delHead`.
  unfoldable pub head_from_db : c.PubKey → ℕ → a.Db → Outcome (List c.Sha256) × a.Db
  head_from_db pk nonce db = after (a.open_heads pk db) [] db λ _.
      after (a.open_roots pk nonce db) [] db λ _.
        then_on (a.del_head pk nonce db) []
          λ _ db'. (returns (hashes (a.roots pk nonce db)) none, db')

  -- The heads of a feed are reached by a pointer.
  abbrev pub put_found :
      c.PubKey → (IndexHeads c → IndexHeads c) → Index a → Option (IndexHeads c) → Index a
  put_found pk f i none = i
  put_found pk f i (some hs) = record i { feeds = insert c.pub_dec pk (f hs) i.feeds }

  abbrev pub on_heads : c.PubKey → (IndexHeads c → IndexHeads c) → Index a → Index a
  on_heads pk f i = put_found pk f i (lookup c.pub_dec pk i.feeds)

  -- `delHead`: the active head stays what it was.
  abbrev pub without_head : c.PubKey → ℕ → Index a → Index a
  without_head pk nonce = on_heads pk λ hs. record hs { h = delete ℕ_discrete nonce hs.h }

  unfoldable pub del_head : c.PubKey → ℕ → Index a → Outcome (List c.Sha256) × Index a
  unfolding head_of head_from_db
  del_head pk nonce i =
      after (head_of a pk nonce i.feeds) [] i
        λ _. on_success a [] (λ _. without_head pk nonce) (in_tx a (head_from_db pk nonce) i)

  -- What the transaction of `delRoot` finds out: the hash of the deleted Root, the Root `ir`, and
  -- whether the last Root was removed or replaced.
  pub record Removal : Type 0 where
    pub root_hash : c.Sha256
    pub ir : Option (DataRoot c)
    pub replaced : Bool
    pub removed : Bool

  abbrev pub look_for_last : c.Sha256 → DataRoot c → Option (DataRoot c) → Removal
  look_for_last h ir none = record { root_hash = h; ir = some ir; replaced = true; removed = true }
  look_for_last h ir (some dr) = record {
    root_hash = h;
    ir = some dr;
    replaced = true;
    removed = false;
  }

  abbrev pub not_last : c.Sha256 → Option (DataRoot c) → Removal
  not_last h ir = record { root_hash = h; ir = ir; replaced = false; removed = false }

  -- The rest of the transaction, once the Root has been deleted. A nil `ir` panics.
  unfoldable pub find_last :
      c.PubKey → ℕ → ℕ → c.Sha256 → Option (DataRoot c) → a.Db → Outcome Removal × a.Db
  find_last pk nonce seq h none db = (panics, db)
  find_last pk nonce seq h (some ir) db =
      if seq == ir.seq
      then (returns (look_for_last h ir (last_of (a.roots pk nonce db))) none, db)
      else (returns (not_last h (some ir)) none, db)

  -- The transaction of `delRoot`.
  unfoldable pub root_from_db :
      c.PubKey → ℕ → ℕ → ℤ → Option (DataRoot c) → a.Db → Outcome Removal × a.Db
  unfolding find_last
  root_from_db pk nonce seq now ir db =
      after (a.open_heads pk db) (not_last c.blank_hash ir) db λ _.
        after (a.open_roots pk nonce db) (not_last c.blank_hash ir) db λ _.
          then_on (a.get_root pk nonce seq now db) (not_last c.blank_hash ir) λ dr db.
            then_on (a.del_root pk nonce seq db) (not_last dr.hash ir)
              λ _ db. find_last pk nonce seq dr.hash ir db

  -- The head after the deletion.
  abbrev pub put_removal : ℕ → Removal → IndexHeads c → IndexHeads c
  put_removal nonce x hs =
      if x.removed
      then record hs { h = insert ℕ_discrete nonce none hs.h }
      else if x.replaced
      then record hs { h = insert ℕ_discrete nonce x.ir hs.h }
      else hs

  -- The active head is looked for again if `ir`, replaced by now, has its timestamp.
  abbrev pub reactivate : Option (DataRoot c) → IndexHeads c → Result (IndexHeads c)
  reactivate none hs = panic
  reactivate (some ir) hs = if ir.time ==ℤ hs.activet then set_active hs else ok hs

  -- Beside a panic of `setActive` the head is the one after the deletion; what was done to the
  -- active head by then is left out.
  unfoldable pub after_removal : c.PubKey → ℕ → Removal → Index a → Outcome c.Sha256 × Index a
  unfolding set_active
  after_removal pk nonce x i = elim (lookup c.pub_dec pk i.feeds) [
    | none ↦ (panics, i)
    | some hs ↦
        let put = put_removal nonce x hs in
        after (reactivate x.ir put) x.root_hash
          (record i { feeds = insert c.pub_dec pk put i.feeds })
          λ hs'. (returns x.root_hash none, record i { feeds = insert c.pub_dec pk hs' i.feeds })
  ]

  abbrev pub root_removed : c.PubKey → ℕ → Outcome Removal × Index a → Outcome c.Sha256 × Index a
  root_removed pk nonce (returns x none, i) = after_removal pk nonce x i
  root_removed pk nonce (returns x (some e), i) = (returns x.root_hash (some e), i)
  root_removed pk nonce (panics, i) = (panics, i)

  -- `delRoot`
  unfoldable pub del_root : c.PubKey → ℕ → ℕ → ℤ → Index a → Outcome c.Sha256 × Index a
  unfolding head_of root_from_db after_removal
  del_root pk nonce seq now i =
      after (head_of a pk nonce i.feeds) c.blank_hash i
        λ ir. root_removed pk nonce (in_tx a (root_from_db pk nonce seq now ir) i)
