-- ===== src/Index/Steps.antt =====
-- skyobject/index.go: sequences of calls of the methods of an index.
use cxo.Prelude.{ℕ, ◌<◌, ◌≡◌, some, Result, ok}
use cxo.Prelude.Int.{ℤ}
use cxo.Cxds.{Val}
use cxo.Cipher.{Cipher}
use cxo.Data.{DataRoot}
use cxo.Registry.{Root}
use cxo.IdxDb.{IdxApi, IsLast, RootsTree, HeadsTree}
use cxo.IdxDb.Laws.{IsIdxDb}
use cxo.Index.Stored.{stored_root-IsIndexed}
use cxo.Index.Received.{received_root-IsIndexed}
use cxo.Index.{Index, find_root, stored_root, last_root, add_feed}
use cxo.Index.Add.{add_root, received_root}
use cxo.Index.Delete.{del_feed, del_head, del_root}
use cxo.Index.Load.{load}
use cxo.Index.Agree.{IsIndexed, head_of-found, feed_there, head_there}
use cxo.Index.Keeps.{add_feed-IsIndexed, del_feed-IsIndexed, del_head-IsIndexed}
use cxo.Index.Find.{find_root-IsIndexed, last_root-found}
use cxo.Index.AddRoot.{add_root-IsIndexed}
use cxo.Index.DelRoot.{del_root-IsIndexed}
use cxo.Index.Loaded.{load-IsIndexed}

module _ {c : Cipher} (a : IdxApi c) where
  -- A call of a method, whatever it returns. A Root is added if it is later than
  -- the last one of its head; `AddHead` is left out.
  pub data Step : Index a → Index a → Type 0 where
    added_feed : (pk : c.PubKey) (i : Index a) → Step i (add_feed a pk i).1
    deleted_feed : (pk : c.PubKey) (i : Index a) → Step i (del_feed a pk i).1
    deleted_head : (pk : c.PubKey) (n : ℕ) (i : Index a) → Step i (del_head a pk n i).1
    deleted_root :
        (pk : c.PubKey) (n s : ℕ) (now : ℤ) (i : Index a) → Step i (del_root a pk n s now i).1
    found_root :
        (pk : c.PubKey) (n s : ℕ) (now : ℤ) (i : Index a) → Step i (find_root a pk n s now i).1
    read_root :
        (pk : c.PubKey) (n s : ℕ) (now : ℤ) (i : Index a) → Step i (stored_root a pk n s now i).1
    got_value :
        (decode_root : Val → Result (Root c)) (pk : c.PubKey) (sig : c.Sig) (val : Val) (now : ℤ)
        (i : Index a)
        → Step i (received_root a decode_root pk sig val now i).1
    added_root :
        (r : Root c) (now : ℤ) (i : Index a)
        → ((dr : DataRoot c) → last_root a r.feed r.nonce i ≡ ok dr → dr.seq < r.seq)
        → Step i (add_root a r now i).1

  -- The indexes that calls lead to from an index that was loaded.
  pub data Reached : Index a → Type 0 where
    loaded_from : (db : a.Db) (i : Index a) → load a db ≡ ok i → Reached i
    next : (i j : Index a) → Reached i → Step i j → Reached j

module _ {c : Cipher} {a : IdxApi c} (l : IsIdxDb a) where
  Step-IsIndexed : {i j : Index a} → Step a i j → IsIndexed l i → IsIndexed l j
  Step-IsIndexed (added_feed pk i) h = add_feed-IsIndexed l pk i h
  Step-IsIndexed (deleted_feed pk i) h = del_feed-IsIndexed l pk i h
  Step-IsIndexed (deleted_head pk n i) h = del_head-IsIndexed l pk n i h
  Step-IsIndexed (deleted_root pk n s now i) h = del_root-IsIndexed l pk n s now i h
  Step-IsIndexed (found_root pk n s now i) h = find_root-IsIndexed l pk n s now i h
  Step-IsIndexed (read_root pk n s now i) h = stored_root-IsIndexed l pk n s now i h
  Step-IsIndexed (got_value decode_root pk sig val now i) h =
      received_root-IsIndexed l decode_root pk sig val now i h
  Step-IsIndexed (added_root r now i newer) h = add_root-IsIndexed l r now i h newer

  Reached-IsIndexed : {i : Index a} → Reached a i → IsIndexed l i
  Reached-IsIndexed (loaded_from db i e) = load-IsIndexed l db i e
  Reached-IsIndexed (next i j r s) = Step-IsIndexed s (Reached-IsIndexed r)

  -- In an index that calls have led to, the last Root of a head is a Root of the database, and the
  -- database has no Root of the head with a greater number.
  pub last_root-Reached :
      (pk : c.PubKey) (n : ℕ) (dr : DataRoot c) (i : Index a)
      → Reached a i
      → last_root a pk n i ≡ ok dr
      → (t : HeadsTree c) × (rs : RootsTree c) × (l.tree i.db pk ≡ some t)
        × (t n ≡ some rs)
        × IsLast (some dr) rs
  last_root-Reached pk n dr i r e =
      let (hs, f, f') = head_of-found a pk n i.feeds (last_root-found a pk n i e) in
      let (t, there, agree) = feed_there l pk hs i (Reached-IsIndexed r) f in
      let (rs, here, last) = head_there l n (some dr) hs t agree f' in (t, rs, there, here, last)
