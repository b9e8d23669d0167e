-- ===== src/Bolt.antt =====
-- What CXO uses of a bucket of BoltDB (github.com/boltdb/bolt), which is not part of the
-- repository: an ordered map from keys to byte slices inside of a transaction. The fields after
-- the operations state what BoltDB documents of them.
use cxo.Prelude.{ℕ, ◌≡◌, ite, List, [], Option, Error, Result, ok, none}

pub record Bolt (K : Type 0) : Type 1 where
  pub dec : Discrete K
  pub Bucket : Type 0
  -- `Get`; a missing key reads as the nil slice
  pub get : Bucket → K → List ℕ
  -- `Put` and `Delete`, which may fail
  pub put : Bucket → K → List ℕ → Result Bucket
  pub delete : Bucket → K → Result Bucket
  -- the commit of a transaction that has made this of the bucket; `none` is success
  pub commit : Bucket → Option Error
  pub get-put :
      (b c : Bucket) (k j : K) (v : List ℕ) → put b k v ≡ ok c → get c j ≡ ite (dec k j) v (get b j)
  pub get-delete :
      (b c : Bucket) (k j : K) → delete b k ≡ ok c → get c j ≡ ite (dec k j) [] (get b j)

-- A bucket whose operations succeed.
pub record IsReliable {K : Type 0} (o : Bolt K) : Type 0 where
  pub puts : (b : o.Bucket) (k : K) (v : List ℕ) → (c : o.Bucket) × (o.put b k v ≡ ok c)
  pub deletes : (b : o.Bucket) (k : K) → (c : o.Bucket) × (o.delete b k ≡ ok c)
  pub commits : (b : o.Bucket) → o.commit b ≡ none
