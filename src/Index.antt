-- ===== src/Index.antt =====
-- skyobject/index.go: the feeds, their heads and the last Root of each head, kept in memory over the
-- index database. A Root that the index points to is a value here: its time of access, the only field
-- that is written to it, is written in place. The lock of each method makes it one step; statistics
-- are left out, and the time is an argument.
pub mod Add
pub mod Delete
pub mod Load
pub mod Agree
pub mod Keeps
pub mod Find
pub mod Newer
pub mod AddRoot
pub mod Loaded
pub mod Flaws
pub mod Saved
pub mod Stored
pub mod Received
pub mod DelRoot
pub mod Steps
use cxo.Prelude.{
  ℕ, Bool, true, false, List, [], ◌∷◌, Option, none, some, Error, Result, ok, err, panic, ite,
  Outcome, returns, panics, if◌then◌else◌, ◌==◌, length, ℕ_discrete, map,
}
use cxo.Prelude.Int.{ℤ, pos, ltb_ℤ}
use cxo.GoMap.{GoMap, insert, delete}
use cxo.Cipher.{Cipher}
use cxo.Data.{DataRoot}
use cxo.IdxDb.{IdxApi, tx, last_of}
use mathlib.Core.List.{lookup}

-- `indexHeads`; a head with no Root has a nil pointer
pub record IndexHeads (c : Cipher) : Type 0 where
  pub h : GoMap ℕ (Option (DataRoot c))
  pub activen : ℕ
  pub activet : ℤ

-- The index with the database behind it. `feeds_list` is the list that `Feeds` hands out.
pub record Index {c : Cipher} (a : IdxApi c) : Type 0 where
  pub feeds : GoMap c.PubKey (IndexHeads c)
  pub feeds_list : List c.PubKey
  pub db : a.Db

module _ {c : Cipher} where
  -- `newIndexHeads`
  abbrev pub new_index_heads : IndexHeads c
  new_index_heads = record { h = []; activen = 0; activet = pos 0 }

  -- `setActive`: a blank head is a nil pointer, and panics.
  unfoldable pub active_of : GoMap ℕ (Option (DataRoot c)) → ℤ → ℕ → Result (ℤ × ℕ)
  active_of [] t n = ok (t, n)
  active_of ((nonce, none) ∷ h) t n = panic
  active_of ((nonce, some dr) ∷ h) t n =
      let later = active_of h dr.time nonce in
      let same = active_of h t n in if ltb_ℤ t dr.time then later else same

  unfoldable pub set_active : IndexHeads c → Result (IndexHeads c)
  unfolding active_of
  set_active hs = elim (active_of hs.h (pos 0) 0) [
    | ok (t, n) ↦ ok (record hs { activet = t; activen = n })
    | err e ↦ err e
    | panic ↦ panic
  ]

  -- The last Root of a head is replaced, and the head may become the active one.
  unfoldable pub put_last : ℕ → DataRoot c → ℤ → IndexHeads c → IndexHeads c
  put_last nonce dr time hs =
      let hs' = record hs { h = insert ℕ_discrete nonce (some dr) hs.h } in
      if ltb_ℤ hs.activet time then record hs' { activet = time; activen = nonce } else hs'

-- A step of a method that may fail before it does anything else.
abbrev pub after : {A B S : Type 0} → Result A → B → S → (A → Outcome B × S) → Outcome B × S
after (ok x) b s k = k x
after (err e) b s k = (returns b (some e), s)
after panic b s k = (panics, s)

-- The same for a step that changes the state.
abbrev pub then_on : {A B S : Type 0} → Result A × S → B → (A → S → Outcome B × S) → Outcome B × S
then_on (ok x, s) b k = k x s
then_on (err e, s) b k = (returns b (some e), s)
then_on (panic, s) b k = (panics, s)

module _ {c : Cipher} (a : IdxApi c) where
  -- A transaction under the index.
  abbrev pub in_tx : {A : Type 0} → (a.Db → Outcome A × a.Db) → Index a → Outcome A × Index a
  in_tx body i = let (r, db) = tx a body i.db in (r, record i { db = db })

  -- The head of a feed in the index: the last Root, or why there is none.
  unfoldable pub head_of :
      c.PubKey → ℕ → GoMap c.PubKey (IndexHeads c) → Result (Option (DataRoot c))
  head_of pk nonce feeds = elim (lookup c.pub_dec pk feeds) [
    | none ↦ err Error.no_such_feed
    | some hs ↦ elim (lookup ℕ_discrete nonce hs.h) [
      | none ↦ err Error.no_such_head
      | some dr ↦ ok dr
    ]
  ]

  -- `lastRoot`
  unfoldable pub last_root : c.PubKey → ℕ → Index a → Result (DataRoot c)
  unfolding head_of
  last_root pk nonce i = elim (head_of pk nonce i.feeds) [
    | ok none ↦ err Error.not_found
    | ok (some dr) ↦ ok dr
    | err e ↦ err e
    | panic ↦ panic
  ]

  -- A Root of the database, by its number. Beside an error the result is the one that was there
  -- before, unless `Get` has replaced it by nil.
  abbrev pub got_root : Result (DataRoot c) × a.Db → Outcome (Option (DataRoot c)) × a.Db
  got_root (ok dr, db) = (returns (some dr) none, db)
  got_root (err e, db) = (returns none (some e), db)
  got_root (panic, db) = (panics, db)

  unfoldable pub root_in_db :
      c.PubKey → ℕ → ℕ → ℤ → DataRoot c → a.Db → Outcome (Option (DataRoot c)) × a.Db
  root_in_db pk nonce seq now dr db = after (a.open_heads pk db) (some dr) db λ _.
      after (a.open_roots pk nonce db) (some dr) db λ _. got_root (a.get_root pk nonce seq now db)

  -- `findRoot`
  unfoldable pub find_root :
      c.PubKey → ℕ → ℕ → ℤ → Index a → Outcome (Option (DataRoot c)) × Index a
  unfolding last_root root_in_db
  find_root pk nonce seq now i = after (last_root pk nonce i) none i λ dr.
      if dr.seq == seq
      then (returns (some dr) none, i)
      else in_tx (root_in_db pk nonce seq now dr) i

  -- `dataRoot`, which keeps no last Root beside an error
  unfoldable pub root_of_db : c.PubKey → ℕ → ℕ → ℤ → a.Db → Outcome (Option (DataRoot c)) × a.Db
  root_of_db pk nonce seq now db =
      after (a.open_heads pk db) none db
        λ _. after (a.open_roots pk nonce db) none db λ _. got_root (a.get_root pk nonce seq now db)

  unfoldable pub stored_root :
      c.PubKey → ℕ → ℕ → ℤ → Index a → Outcome (Option (DataRoot c)) × Index a
  unfolding last_root root_of_db
  stored_root pk nonce seq now i = after (last_root pk nonce i) none i λ last.
      if last.seq == seq
      then (returns (some last) none, i)
      else in_tx (root_of_db pk nonce seq now) i

  -- `AddFeed`
  abbrev pub add_to_db : c.PubKey → a.Db → Outcome (Unit {0}) × a.Db
  add_to_db pk db = then_on (a.add_feed pk db) tt λ _ db. (returns tt none, db)

  -- What a method does to the index once its transaction has succeeded; it returns the blank value
  -- beside an error.
  abbrev pub on_success :
      {A : Type 0} → A → (A → Index a → Index a) → Outcome A × Index a → Outcome A × Index a
  on_success z f (returns x none, i) = (returns x none, f x i)
  on_success z f (returns x (some e), i) = (returns z (some e), i)
  on_success z f (panics, i) = (panics, i)

  abbrev pub with_feed : c.PubKey → Index a → Index a
  with_feed pk i = record i { feeds = insert c.pub_dec pk new_index_heads i.feeds; feeds_list = [] }

  unfoldable pub add_feed : c.PubKey → Index a → Outcome (Unit {0}) × Index a
  add_feed pk i = elim (lookup c.pub_dec pk i.feeds) [
    | some hs ↦ (returns tt none, i)
    | none ↦ on_success tt (λ _. with_feed pk) (in_tx (add_to_db pk) i)
  ]

  -- `AddHead`: a new record of heads replaces the one of the feed.
  abbrev pub head_to_db : c.PubKey → ℕ → a.Db → Outcome (Unit {0}) × a.Db
  head_to_db pk nonce db =
      after (a.open_heads pk db) tt db
        λ _. then_on (a.add_head pk nonce db) tt λ _ db. (returns tt none, db)

  abbrev pub with_blank_heads : c.PubKey → Index a → Index a
  with_blank_heads pk i = record i { feeds = insert c.pub_dec pk new_index_heads i.feeds }

  unfoldable pub add_head : c.PubKey → ℕ → Index a → Outcome (Unit {0}) × Index a
  unfolding head_of
  add_head pk nonce i = elim (head_of pk nonce i.feeds) [
    | ok dr ↦ (returns tt none, i)
    | err Error.no_such_head ↦
        on_success tt (λ _. with_blank_heads pk) (in_tx (head_to_db pk nonce) i)
    | err e ↦ (returns tt (some e), i)
    | panic ↦ (panics, i)
  ]

  -- `HasFeed` and `HasHead`
  unfoldable pub has_feed : c.PubKey → Index a → Bool
  has_feed pk i = elim (lookup c.pub_dec pk i.feeds) [ none ↦ false | some hs ↦ true ]

  unfoldable pub has_head : c.PubKey → ℕ → Index a → Bool
  unfolding head_of
  has_head pk nonce i = elim (head_of pk nonce i.feeds) [ ok dr ↦ true | _ ↦ false ]

  -- `ActiveHead`
  unfoldable pub active_head : c.PubKey → Index a → ℕ
  active_head pk i = elim (lookup c.pub_dec pk i.feeds) [ none ↦ 0 | some hs ↦ hs.activen ]

  -- `Heads`, in the order of a range
  unfoldable pub heads : c.PubKey → Index a → Result (List ℕ)
  heads pk i = elim (lookup c.pub_dec pk i.feeds) [
    | none ↦ err Error.no_such_feed
    | some hs ↦ ok (map (λ x. x.0) hs.h)
  ]

  -- `LastRootSeq`
  unfoldable pub last_root_seq : c.PubKey → ℕ → Index a → Result ℕ
  unfolding last_root
  last_root_seq pk nonce i = elim (last_root pk nonce i) [
    | ok lr ↦ ok lr.seq
    | err e ↦ err e
    | panic ↦ panic
  ]
