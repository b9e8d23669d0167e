-- ===== src/Data.antt =====
-- data/data.go: the Root of the index database, and `Validate`. Encoding is left to the library.
use cxo.Prelude.{ℕ, Bool, Option, none, some, Error, if◌then◌else◌, ◌==◌, not, ite, true, false}
use cxo.Prelude.Int.{ℤ, is_zero}
use cxo.Cipher.{Cipher}

-- `data.Root`
pub record DataRoot (c : Cipher) : Type 0 where
  pub create : ℤ
  pub access : ℤ
  pub time : ℤ
  pub seq : ℕ
  pub prev : c.Sha256
  pub hash : c.Sha256
  pub sig : c.Sig

module _ (c : Cipher) where
  abbrev pub is_blank_hash : c.Sha256 → Bool
  is_blank_hash h = ite (c.hash_dec h c.blank_hash) true false

  abbrev pub is_blank_sig : c.Sig → Bool
  is_blank_sig s = ite (c.sig_dec s c.blank_sig) true false

  abbrev pub is_blank_pub : c.PubKey → Bool
  is_blank_pub p = ite (c.pub_dec p c.blank_pub) true false

  -- The rest of `Validate`, once the previous hash is as it should be.
  unfoldable pub validate_rest : DataRoot c → Option Error
  validate_rest r =
      if is_blank_hash r.hash
      then some Error.empty_hash
      else if is_blank_sig r.sig
      then some Error.empty_sig
      else if is_zero r.time
      then some Error.zero_timestamp
      else none

  -- `Validate`; `none` is success
  unfoldable pub validate : DataRoot c → Option Error
  unfolding validate_rest
  validate r =
      if r.seq == 0
      then (if not (is_blank_hash r.prev) then some Error.unexpected_prev else validate_rest r)
      else if is_blank_hash r.prev
      then some Error.missing_prev
      else validate_rest r
