-- ===== src/Registry.antt =====
-- skyobject/registry: the trees of objects. The module holds the Root object of root.go; a child holds
-- the trees of references. The encoding is a parameter.
pub mod Refs
use cxo.Prelude.{ℕ, Bool}
use cxo.Prelude.Int.{ℤ}
use cxo.Cipher.{Cipher}

-- `registry.Root`, less its references and its registry
pub record Root (c : Cipher) : Type 0 where
  pub feed : c.PubKey
  pub nonce : ℕ
  pub seq : ℕ
  pub time : ℤ
  pub sig : c.Sig
  pub hash : c.Sha256
  pub prev : c.Sha256
  pub is_full : Bool
