-- ===== src/Index/Load.antt =====
-- skyobject/index.go: `load`, which makes the index of a database, and `Feeds`.
use cxo.Prelude.{
  ℕ, List, [], ◌∷◌, ◌++◌, Option, none, some, Error, Result, ok, err, if◌then◌else◌, ◌==◌, length,
  ℕ_discrete, map, ◌>>=◌,
}
use cxo.Prelude.Int.{ltb_ℤ}
use cxo.GoMap.{GoMap, insert}
use cxo.Cipher.{Cipher}
use cxo.Data.{DataRoot}
use cxo.IdxDb.{IdxApi, last_of}
use cxo.Index.{Index, IndexHeads, new_index_heads}

module _ {c : Cipher} (a : IdxApi c) where
  -- One head: its last Root, which may make it the active one.
  unfoldable pub load_head : ℕ → Option (DataRoot c) → IndexHeads c → IndexHeads c
  load_head nonce none hs = record hs { h = insert ℕ_discrete nonce none hs.h }
  load_head nonce (some ir) hs =
      let hs' = record hs { h = insert ℕ_discrete nonce (some ir) hs.h } in
      if ltb_ℤ hs.activet ir.time then record hs' { activet = ir.time; activen = nonce } else hs'

  unfoldable pub load_heads : c.PubKey → List ℕ → a.Db → IndexHeads c → Result (IndexHeads c)
  unfolding load_head
  load_heads pk [] db hs = ok hs
  load_heads pk (nonce ∷ l) db hs = do
    _ ← a.open_roots pk nonce db
    load_heads pk l db (load_head nonce (last_of (a.roots pk nonce db)) hs)

  unfoldable pub load_feeds :
      List c.PubKey → a.Db → GoMap c.PubKey (IndexHeads c) → Result (GoMap c.PubKey (IndexHeads c))
  unfolding load_heads
  load_feeds [] db feeds = ok feeds
  load_feeds (pk ∷ l) db feeds = do
    _ ← a.open_heads pk db
    hs ← load_heads pk (a.heads pk db) db new_index_heads
    load_feeds l db (insert c.pub_dec pk hs feeds)

  -- The commit of the transaction that has read the database.
  abbrev pub loaded : Index a → Option Error → Result (Index a)
  loaded i none = ok i
  loaded i (some e) = err e

  -- `load`
  unfoldable pub load : a.Db → Result (Index a)
  unfolding load_feeds
  load db = do
    feeds ← load_feeds (a.feeds db) db []
    loaded (record { feeds = feeds; feeds_list = []; db = db }) (a.commit db)

  -- `Feeds`: the list is made again only if its length is not the number of feeds.
  unfoldable pub feeds : Index a → List c.PubKey × Index a
  feeds i =
      let l =
        if length i.feeds_list == length i.feeds
        then i.feeds_list
        else i.feeds_list ++ map (λ x. x.0) i.feeds in
      (l, record i { feeds_list = l })
