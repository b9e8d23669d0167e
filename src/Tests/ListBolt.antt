-- ===== src/Tests/ListBolt.antt =====
-- A bucket of BoltDB as an association list: one that succeeds, and one that refuses every write.
use cxo.Prelude.{◌≡◌, refl, ◌∙◌, ap, [], none, Error, Result, ok, err, ite, arith}
use cxo.GoMap.{GoMap, insert, delete, lookup-insert, lookup-delete}
use cxo.Cxds.{Val}
use cxo.Bolt.{Bolt, IsReliable}
use mathlib.Core.List.{lookup}
use mathlib.Core.Option.{get_or}

ok_value : {A : Type 0} → A → Result A → A
ok_value a (ok x) = x
ok_value a r = a

ok-injective : {A : Type 0} {a b : A} → Path (Result A) (ok a) (ok b) → a ≡ b
unfolding ok_value
ok-injective {a = a} e = ap (ok_value a) e

module _ {K : Type 0} (dec : Discrete K) where
  abbrev pub read : GoMap K Val → K → Val
  read b k = get_or (lookup dec k b) []

  pub read-insert :
      (b c : GoMap K Val) (k j : K) (v : Val)
      → Path (Result (GoMap K Val)) (ok (insert dec k v b)) (ok c)
      → read c j ≡ ite (dec k j) v (read b j)
  read-insert b c k j v e =
      rw (← ok-injective e) (ap (λ o. get_or o []) (lookup-insert dec k j v b) ∙ ground arith)

  pub read-delete :
      (b c : GoMap K Val) (k j : K)
      → Path (Result (GoMap K Val)) (ok (delete dec k b)) (ok c)
      → read c j ≡ ite (dec k j) [] (read b j)
  read-delete b c k j e =
      rw (← ok-injective e) (ap (λ o. get_or o []) (lookup-delete dec k j b) ∙ ground arith)

  abbrev pub list_bolt : Bolt K
  list_bolt = record {
    dec = dec;
    Bucket = GoMap K Val;
    get = read;
    put = λ b k v. ok (insert dec k v b);
    delete = λ b k. ok (delete dec k b);
    commit = λ b. none;
    get-put = read-insert;
    get-delete = read-delete;
  }

  pub list_bolt-IsReliable : IsReliable list_bolt
  list_bolt-IsReliable = record {
    puts = λ b k v. (insert dec k v b, refl);
    deletes = λ b k. (delete dec k b, refl);
    commits = λ b. refl;
  }

  abbrev pub full_bolt : Bolt K
  full_bolt = record {
    dec = dec;
    Bucket = GoMap K Val;
    get = read;
    put = λ b k v. err (Error.foreign 0);
    delete = λ b k. err (Error.foreign 0);
    commit = λ b. none;
    get-put = λ b c k j v e. cc;
    get-delete = λ b c k j e. cc;
  }
