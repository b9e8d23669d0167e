-- ===== src/Cipher.antt =====
-- What CXO uses of the package `cipher` (github.com/skycoin/skycoin/src/cipher), which is not part of
-- the repository: public keys, hashes and signatures are known by their equality, each type has a
-- blank value, and the two functions are parameters.
use cxo.Prelude.{Option, Error}
use cxo.Cxds.{Val}

pub record Cipher : Type 1 where
  pub PubKey : Type 0
  pub Sha256 : Type 0
  pub Sig : Type 0
  pub pub_dec : Discrete PubKey
  pub hash_dec : Discrete Sha256
  pub sig_dec : Discrete Sig
  pub blank_pub : PubKey
  pub blank_hash : Sha256
  pub blank_sig : Sig
  -- `SumSHA256` and `VerifyPubKeySignedHash`; `none` is success
  pub sum : Val → Sha256
  pub verify : PubKey → Sig → Sha256 → Option Error
