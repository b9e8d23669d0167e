-- ===== src/Tests/ListIdxDb.antt =====
-- An index database of nested association lists, with numbers for public keys, hashes and signatures.
pub mod Tree
pub mod Obeys
use cxo.Prelude.{
  ℕ, ◌≡◌, refl, List, [], ◌∷◌, ◌++◌, Option, none, some, Error, Result, ok, err, map, ltb,
  if◌then◌else◌, ℕ_discrete, length, ◌==◌,
}
use cxo.Prelude.Int.{ℤ}
use cxo.GoMap.{GoMap, insert, delete}
use cxo.Cipher.{Cipher}
use cxo.Data.{DataRoot}
use cxo.IdxDb.{IdxApi, is_there}
use cxo.IdxDb.Laws.{opens}
use mathlib.Core.List.{lookup}
use mathlib.Core.Option.{get_or}

abbrev pub numbers : Cipher
numbers = record {
  PubKey = ℕ;
  Sha256 = ℕ;
  Sig = ℕ;
  pub_dec = ℕ_discrete;
  hash_dec = ℕ_discrete;
  sig_dec = ℕ_discrete;
  blank_pub = 0;
  blank_hash = 0;
  blank_sig = 0;
  sum = λ v. length v;
  verify = λ p s h. if s == p then none else some (Error.foreign 1);
}

-- A stored Root, less its number.
pub record Stored : Type 0 where
  pub create : ℤ
  pub access : ℤ
  pub time : ℤ
  pub prev : ℕ
  pub hash : ℕ
  pub sig : ℕ

abbrev pub Roots : Type 0
Roots = GoMap ℕ Stored

abbrev pub Heads : Type 0
Heads = GoMap ℕ Roots

abbrev pub Feeds : Type 0
Feeds = GoMap ℕ Heads

abbrev pub data_of : ℕ → Stored → DataRoot numbers
data_of s x = record {
  create = x.create;
  access = x.access;
  time = x.time;
  seq = s;
  prev = x.prev;
  hash = x.hash;
  sig = x.sig;
}

abbrev pub stored_of : DataRoot numbers → ℤ → Stored
stored_of r now = record {
  create = now;
  access = now;
  time = r.time;
  prev = r.prev;
  hash = r.hash;
  sig = r.sig;
}

abbrev pub heads_at : ℕ → Feeds → Heads
heads_at p db = get_or (lookup ℕ_discrete p db) []

abbrev pub roots_at : ℕ → ℕ → Feeds → Roots
roots_at p n db = get_or (lookup ℕ_discrete n (heads_at p db)) []

abbrev pub put_roots_at : ℕ → ℕ → Roots → Feeds → Feeds
put_roots_at p n rs db = insert ℕ_discrete p (insert ℕ_discrete n rs (heads_at p db)) db

abbrev pub keys : {A : Type 0} → GoMap ℕ A → List ℕ
keys m = map (λ x. x.0) m

-- The greatest number.
unfoldable pub top : Roots → ℕ
top [] = 0
top ((k, x) ∷ m) = if ltb (top m) k then k else top m

abbrev pub one : ℕ → Option Stored → List (DataRoot numbers)
one s none = []
one s (some x) = data_of s x ∷ []

abbrev pub end_with : {A : Type 0} → List A → List A → List A
end_with l [] = l
end_with l (x ∷ r) = x ∷ end_with l r

-- The Root objects with the last one at the end.
abbrev pub listing : Roots → List (DataRoot numbers)
listing m =
    let rest = delete ℕ_discrete (top m) m in
    end_with (one (top m) (lookup ℕ_discrete (top m) m)) (map (λ x. data_of x.0 x.1) rest)

abbrev pub got : ℕ → ℕ → ℕ → ℤ → Feeds → Option Stored → Result (DataRoot numbers) × Feeds
got p n s now db none = (err Error.not_found, db)
got p n s now db (some x) = (
  ok (data_of s x),
  put_roots_at p n (insert ℕ_discrete s (record x { access = now }) (roots_at p n db)) db,
)

abbrev pub set_over :
    ℕ → ℕ → DataRoot numbers → ℤ → Feeds → Option Stored → Result (DataRoot numbers) × Feeds
set_over p n r now db none = (
  ok (record r { create = now; access = now }),
  put_roots_at p n (insert ℕ_discrete r.seq (stored_of r now) (roots_at p n db)) db,
)
set_over p n r now db (some x) = (
  ok (record r { create = x.create; access = x.access }),
  put_roots_at p n (insert ℕ_discrete r.seq (record x { access = now }) (roots_at p n db)) db,
)

abbrev pub list_idx_db : IdxApi numbers
list_idx_db = record {
  Db = Feeds;
  feeds = λ db. keys db;
  heads = λ p db. keys (heads_at p db);
  roots = λ p n db. listing (roots_at p n db);
  open_heads = λ p db. opens Error.no_such_feed (lookup ℕ_discrete p db);
  open_roots = λ p n db. opens Error.no_such_head (lookup ℕ_discrete n (heads_at p db));
  add_feed = λ p db. (ok tt, insert ℕ_discrete p (heads_at p db) db);
  del_feed = λ p db. (opens Error.no_such_feed (lookup ℕ_discrete p db), delete ℕ_discrete p db);
  add_head = λ p n db. (ok tt, put_roots_at p n (roots_at p n db) db);
  del_head = λ p n db. (
    opens Error.no_such_head (lookup ℕ_discrete n (heads_at p db)),
    insert ℕ_discrete p (delete ℕ_discrete n (heads_at p db)) db,
  );
  has_root = λ p n s db. ok (is_there (lookup ℕ_discrete s (roots_at p n db)));
  get_root = λ p n s now db. got p n s now db (lookup ℕ_discrete s (roots_at p n db));
  set_root = λ p n r now db. set_over p n r now db (lookup ℕ_discrete r.seq (roots_at p n db));
  del_root = λ p n s db. (ok tt, put_roots_at p n (delete ℕ_discrete s (roots_at p n db)) db);
  commit = λ db. none;
}
