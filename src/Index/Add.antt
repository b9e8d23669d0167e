-- ===== src/Index/Add.antt =====
-- skyobject/index.go: `AddRoot`, and the check of a received Root.
use cxo.Prelude.{
  ℕ, Bool, true, false, Option, none, some, Error, Result, ok, err, panic, Outcome, returns, panics,
  if◌then◌else◌, ltb, ◌==◌, not, ℕ_discrete,
}
use cxo.Prelude.Int.{ℤ, pos}
use cxo.GoMap.{insert}
use cxo.Cxds.{Val}
use cxo.Cipher.{Cipher}
use cxo.Data.{DataRoot, is_blank_hash, is_blank_sig, is_blank_pub}
use cxo.IdxDb.{IdxApi}
use cxo.Registry.{Root}
use cxo.Index.{Index, find_root, put_last, after, then_on, in_tx}
use mathlib.Core.List.{lookup}

module _ {c : Cipher} where
  -- The `data.Root` of a Root.
  abbrev pub data_root : Root c → DataRoot c
  data_root r = record {
    create = pos 0;
    access = pos 0;
    time = r.time;
    seq = r.seq;
    prev = r.prev;
    hash = r.hash;
    sig = r.sig;
  }

  -- The conditions on a Root to add; `none` if it passes.
  unfoldable pub refusal : Root c → Option Error
  refusal r =
      if not r.is_full
      then some Error.not_full
      else if is_blank_pub c r.feed
      then some Error.blank_pub
      else if is_blank_hash c r.hash
      then some Error.blank_hash
      else if is_blank_sig c r.sig
      then some Error.blank_sig
      else none

module _ {c : Cipher} (a : IdxApi c) where
  -- A Root of the index that is found again is touched, where it is the last of its head; one that
  -- comes from the database is a copy.
  unfoldable pub touch_last : c.PubKey → ℕ → ℕ → ℤ → Index a → Index a
  touch_last pk nonce seq now i = elim (lookup c.pub_dec pk i.feeds) [
    | none ↦ i
    | some hs ↦ elim (lookup ℕ_discrete nonce hs.h) [
      | some (some dr) ↦
          if dr.seq == seq
          then record i {
            feeds =
                insert c.pub_dec pk
                  (record hs {
                    h = insert ℕ_discrete nonce (some (record dr { access = now })) hs.h;
                  })
                  i.feeds;
          }
          else i
      | _ ↦ i
    ]
  ]

  -- The transaction of `addRoot`: does the database have the Root already, and the Root as it is
  -- saved.
  unfoldable pub save_root : Root c → ℤ → a.Db → Outcome (Bool × DataRoot c) × a.Db
  save_root r now db =
      after (a.open_heads r.feed db) (false, data_root r) db
        λ _.
          then_on (a.add_head r.feed r.nonce db) (false, data_root r)
            λ _ db.
              after (a.has_root r.feed r.nonce r.seq db) (false, data_root r) db
                λ have.
                  then_on (a.set_root r.feed r.nonce (data_root r) now db) (have, data_root r)
                    λ dr db. (returns (have, dr) none, db)

  -- The last Root is replaced, unless `ir` is a later one.
  unfoldable pub put_root :
      Root c → Option (DataRoot c) → Bool → DataRoot c → Index a → Outcome Bool × Index a
  unfolding put_last
  put_root r ir have dr i =
      let put : Outcome Bool × Index a = elim (lookup c.pub_dec r.feed i.feeds) [
        | none ↦ (panics, i)
        | some hs ↦ (
          returns have none,
          record i { feeds = insert c.pub_dec r.feed (put_last r.nonce dr r.time hs) i.feeds },
        )
      ] in
      elim ir [
        | none ↦ put
        | some last ↦ if ltb r.seq last.seq then (returns have none, i) else put
      ]

  abbrev pub saved :
      Root c → Option (DataRoot c) → Outcome (Bool × DataRoot c) × Index a → Outcome Bool × Index a
  saved r ir (returns (have, dr) none, i) = put_root r ir have dr i
  saved r ir (returns (have, dr) (some e), i) = (returns have (some e), i)
  saved r ir (panics, i) = (panics, i)

  -- What follows `findRoot` in `addRoot`.
  abbrev pub add_found :
      Root c → ℤ → Outcome (Option (DataRoot c)) × Index a → Outcome Bool × Index a
  add_found r now (returns ir none, i) = (returns true none, touch_last r.feed r.nonce r.seq now i)
  add_found r now (returns ir (some Error.not_found), i) = saved r ir (in_tx a (save_root r now) i)
  add_found r now (returns ir (some Error.no_such_head), i) =
      saved r ir (in_tx a (save_root r now) i)
  add_found r now (returns ir (some e), i) = (returns false (some e), i)
  add_found r now (panics, i) = (panics, i)

  -- `addRoot`, and so `AddRoot`
  unfoldable pub add_root : Root c → ℤ → Index a → Outcome Bool × Index a
  unfolding refusal find_root touch_last save_root put_root
  add_root r now i = elim (refusal r) [
    | some e ↦ (returns false (some e), i)
    | none ↦ add_found r now (find_root a r.feed r.nonce r.seq now i)
  ]

  -- `addSavedRoot`
  unfoldable pub add_saved_root : Root c → DataRoot c → Index a → Outcome (Unit {0}) × Index a
  unfolding put_last
  add_saved_root r dr i = elim (lookup c.pub_dec r.feed i.feeds) [
    | none ↦ (panics, i)
    | some hs ↦ (
      returns tt none,
      record i { feeds = insert c.pub_dec r.feed (put_last r.nonce dr r.time hs) i.feeds },
    )
  ]

  module _ (decode_root : Val → Result (Root c)) where
    -- `receivedRoot`, over the decoder of Root objects
    unfoldable pub check_received : c.PubKey → c.Sig → Val → Result (Root c)
    check_received pk sig val = elim (c.verify pk sig (c.sum val)) [
      | some e ↦ err e
      | none ↦ elim (decode_root val) [
        | ok r ↦ ok (record r { hash = c.sum val; sig = sig })
        | err e ↦ err e
        | panic ↦ panic
      ]
    ]

    -- `ReceivedRoot`
    abbrev pub received_found :
        Root c → Outcome (Option (DataRoot c)) × Index a → Outcome (Option (Root c)) × Index a
    received_found r (returns ir none, i) = (returns (some (record r { is_full = true })) none, i)
    received_found r (returns ir (some Error.not_found), i) = (returns (some r) none, i)
    received_found r (returns ir (some Error.no_such_head), i) = (returns (some r) none, i)
    received_found r (returns ir (some e), i) = (returns (some r) (some e), i)
    received_found r (panics, i) = (panics, i)

    unfoldable pub received_root :
        c.PubKey → c.Sig → Val → ℤ → Index a → Outcome (Option (Root c)) × Index a
    unfolding check_received find_root
    received_root pk sig val now i =
        after (check_received pk sig val) none i
          λ r. received_found r (find_root a r.feed r.nonce r.seq now i)
