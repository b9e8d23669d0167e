-- ===== src/IdxDb/Roots.antt =====
-- data/idxdb/drive.go: the Root objects of a head in a bucket of BoltDB. A key is the number of a
-- Root, which `utob` writes in eight bytes; the encoder of the Root is a parameter. `Set` gives back
-- the Root that it has changed; the Root that `Get` returns beside an error is not kept.
pub mod Trip
use cxo.Prelude.{
  ℕ, ◌≡◌, Bool, true, false, Option, none, some, Error, Result, ok, err, panic, if◌then◌else◌,
  is_empty, not,
}
use cxo.Prelude.Int.{ℤ}
use cxo.Bolt.{Bolt}
use cxo.Cxds.{Val}
use cxo.Cipher.{Cipher}
use cxo.Data.{DataRoot, validate}

-- What CXO uses of the package `encoder`: a Root is read as it was written, and takes some bytes.
pub record RootCodec (c : Cipher) : Type 0 where
  pub encode : DataRoot c → Val
  pub decode : Val → Result (DataRoot c)
  pub decode-encode : (r : DataRoot c) → decode (encode r) ≡ ok r
  pub is_empty-encode : (r : DataRoot c) → is_empty (encode r) ≡ false

module _ {c : Cipher} (o : Bolt ℕ) (codec : RootCodec c) where
  -- The end of a method that writes.
  abbrev pub written : DataRoot c → o.Bucket → Result o.Bucket → Result (DataRoot c) × o.Bucket
  written r b (ok b') = (ok r, b')
  written r b (err e) = (err e, b)
  written r b panic = (panic, b)

  -- `Set` of a Root that the bucket has.
  abbrev pub set_over :
      DataRoot c → ℤ → o.Bucket → Result (DataRoot c) → Result (DataRoot c) × o.Bucket
  set_over r now b (ok nr) =
      written (record r { create = nr.create; access = nr.access }) b
        (o.put b r.seq (codec.encode (record nr { access = now })))
  set_over r now b (err e) = (panic, b)
  set_over r now b panic = (panic, b)

  -- `Set` of a valid Root, and `Set`
  unfoldable pub set_valid : DataRoot c → ℤ → Val → o.Bucket → Result (DataRoot c) × o.Bucket
  set_valid r now val b =
      let fresh : DataRoot c = record r { create = now; access = now } in
      if is_empty val
      then written fresh b (o.put b r.seq (codec.encode fresh))
      else set_over r now b (codec.decode val)

  unfoldable pub set_root : DataRoot c → ℤ → o.Bucket → Result (DataRoot c) × o.Bucket
  unfolding set_valid
  set_root r now b = elim (validate c r) [
    | some e ↦ (err e, b)
    | none ↦ set_valid r now (o.get b r.seq) b
  ]

  -- `Get`: the Root keeps its time of access, and the bucket gets a new one.
  abbrev pub got : ℕ → ℤ → o.Bucket → Result (DataRoot c) → Result (DataRoot c) × o.Bucket
  got seq now b (ok r) = written r b (o.put b seq (codec.encode (record r { access = now })))
  got seq now b (err e) = (panic, b)
  got seq now b panic = (panic, b)

  unfoldable pub get_root : ℕ → ℤ → o.Bucket → Result (DataRoot c) × o.Bucket
  get_root seq now b =
      if is_empty (o.get b seq)
      then (err Error.not_found, b)
      else got seq now b (codec.decode (o.get b seq))

  -- `Del` and `Has`
  unfoldable pub del_root : ℕ → o.Bucket → Result o.Bucket
  del_root seq b = o.delete b seq

  unfoldable pub has_root : ℕ → o.Bucket → Bool
  has_root seq b = not (is_empty (o.get b seq))
