-- ===== src/IdxDb/Roots/Trip.antt =====
-- data/idxdb/drive.go: `Get` and `Has` of a Root after `Set`.
use cxo.Prelude.{ℕ, ◌≡◌, refl, ◌∙◌, [], none, ok, if_pos}
use cxo.Prelude.Int.{ℤ}
use cxo.Bolt.{Bolt, IsReliable}
use cxo.Cxds.{Val}
use cxo.Cipher.{Cipher}
use cxo.Data.{DataRoot, validate}
use cxo.IdxDb.Roots.{RootCodec, set_valid, set_root, get_root}

module _ {c : Cipher} (o : Bolt ℕ) (codec : RootCodec c) where
  get-put_same : (b b' : o.Bucket) (k : ℕ) (v : Val) → o.put b k v ≡ ok b' → o.get b' k ≡ v
  get-put_same b b' k v e = o.get-put b b' k k v e ∙ if_pos (o.dec k k) refl _ _

  -- A Root that is in the bucket is got as it is.
  get_root-stored :
      (s : ℕ) (now : ℤ) (x : DataRoot c) (b : o.Bucket)
      → IsReliable o
      → o.get b s ≡ codec.encode x
      → (get_root o codec s now b).0 ≡ ok x
  unfolding get_root
  get_root-stored s now x b reliable e =
      let (b', put) = reliable.puts b s (codec.encode (record x { access = now })) in
      rw (e, get_root, codec.is_empty-encode x, codec.decode-encode x, put) refl

  -- Over a database whose writes all succeed, a valid Root that is new to its head is got as `Set`
  -- has given it back.
  pub get_root-set_new :
      (r : DataRoot c) (now later : ℤ) (b : o.Bucket)
      → IsReliable o
      → validate c r ≡ none
      → o.get b r.seq ≡ []
      → ((get_root o codec r.seq later (set_root o codec r now b).1).0
          ≡ (set_root o codec r now b).0)
        × ((set_root o codec r now b).0 ≡ ok (record r { create = now; access = now }))
  unfolding set_root set_valid
  get_root-set_new r now later b reliable valid new =
      let fresh : DataRoot c = record r { create = now; access = now } in
      let (b', put) = reliable.puts b r.seq (codec.encode fresh) in
      let shape : set_root o codec r now b ≡ (ok fresh, b') =
        rw (valid, set_root, new, set_valid, put) refl in
      rw shape (
        get_root-stored r.seq later fresh b' reliable
            (get-put_same b b' r.seq (codec.encode fresh) put),
        refl,
      )

  -- Over a database whose writes all succeed, `Set` of a valid Root with the number of a stored one
  -- keeps what is stored but for its time of access, whatever the given Root says.
  pub get_root-set_there :
      (r nr : DataRoot c) (now later : ℤ) (b : o.Bucket)
      → IsReliable o
      → validate c r ≡ none
      → o.get b r.seq ≡ codec.encode nr
      → ((get_root o codec r.seq later (set_root o codec r now b).1).0
          ≡ ok (record nr { access = now }))
        × ((set_root o codec r now b).0 ≡ ok (record r { create = nr.create; access = nr.access }))
  unfolding set_root set_valid
  get_root-set_there r nr now later b reliable valid there =
      let touched : DataRoot c = record nr { access = now } in
      let given : DataRoot c = record r { create = nr.create; access = nr.access } in
      let (b', put) = reliable.puts b r.seq (codec.encode touched) in
      let shape : set_root o codec r now b ≡ (ok given, b') =
        rw
          (valid, set_root, there, set_valid, codec.is_empty-encode nr, codec.decode-encode nr, put)
          refl in
      rw shape (
        get_root-stored r.seq later touched b' reliable
            (get-put_same b b' r.seq (codec.encode touched) put),
        refl,
      )
