-- ===== src/IdxDb.antt =====
-- data/idxdb.go: the interface of the index database, as the index uses it, and what it promises. A
-- handle of `Feeds.Heads` or `Heads.Roots` is the path to it; `open_heads` and `open_roots` are the
-- calls that give the handles out. The tree of a database shows the feeds, their heads and the facts
-- about the Root objects of each head.
pub mod Laws
pub mod Roots
use cxo.Prelude.{
  ◌<◌, Outcome, returns, panics, ℕ, ◌≡◌, Bool, true, false, List, [], ◌∷◌, Option, none, some,
  Error, Result, ok, err, panic, ite, ◌||◌,
}
use cxo.Prelude.Int.{ℤ}
use cxo.Cipher.{Cipher}
use cxo.Data.{DataRoot}

-- What a stored Root says besides its number and the times of its creation and last access.
pub record Facts (c : Cipher) : Type 0 where
  pub time : ℤ
  pub prev : c.Sha256
  pub hash : c.Sha256
  pub sig : c.Sig

abbrev pub facts : {c : Cipher} → DataRoot c → Facts c
facts r = record { time = r.time; prev = r.prev; hash = r.hash; sig = r.sig }

abbrev pub RootsTree : Cipher → Type 0
RootsTree c = ℕ → Option (Facts c)

abbrev pub HeadsTree : Cipher → Type 0
HeadsTree c = ℕ → Option (RootsTree c)

pub record IdxApi (c : Cipher) : Type 1 where
  pub Db : Type 0
  -- the feeds, the heads of a feed and the Root objects of a head in the order of an iteration; in
  -- data/idxdb/drive.go an iteration returns no error but the one of its callback, so there is none
  pub feeds : Db → List c.PubKey
  pub heads : c.PubKey → Db → List ℕ
  pub roots : c.PubKey → ℕ → Db → List (DataRoot c)
  pub open_heads : c.PubKey → Db → Result (Unit {0})
  pub open_roots : c.PubKey → ℕ → Db → Result (Unit {0})
  pub add_feed : c.PubKey → Db → Result (Unit {0}) × Db
  pub del_feed : c.PubKey → Db → Result (Unit {0}) × Db
  pub add_head : c.PubKey → ℕ → Db → Result (Unit {0}) × Db
  pub del_head : c.PubKey → ℕ → Db → Result (Unit {0}) × Db
  pub has_root : c.PubKey → ℕ → ℕ → Db → Result Bool
  -- `Get` and `Set` take the time; `Set` gives back the Root that it has changed
  pub get_root : c.PubKey → ℕ → ℕ → ℤ → Db → Result (DataRoot c) × Db
  pub set_root : c.PubKey → ℕ → DataRoot c → ℤ → Db → Result (DataRoot c) × Db
  pub del_root : c.PubKey → ℕ → ℕ → Db → Result (Unit {0}) × Db
  -- the commit of a transaction; `none` is success
  pub commit : Db → Option Error

abbrev pub is_in : {A : Type 0} → Discrete A → A → List A → Bool
is_in dec x [] = false
is_in dec x (y ∷ l) = ite (dec x y) true false || is_in dec x l

abbrev pub is_there : {A : Type 0} → Option A → Bool
is_there none = false
is_there (some x) = true

module _ {c : Cipher} (a : IdxApi c) where
  -- `IdxDB.Tx`: the database is changed only if the function and the commit succeed.
  abbrev pub committed : {A : Type 0} → a.Db → A → a.Db → Option Error → Outcome A × a.Db
  committed db x db' none = (returns x none, db')
  committed db x db' (some e) = (returns x (some e), db)

  abbrev pub tx_end : {A : Type 0} → a.Db → Outcome A × a.Db → Outcome A × a.Db
  tx_end db (returns x none, db') = committed db x db' (a.commit db')
  tx_end db (returns x (some e), db') = (returns x (some e), db)
  tx_end db (panics, db') = (panics, db)

  unfoldable pub tx : {A : Type 0} → (a.Db → Outcome A × a.Db) → a.Db → Outcome A × a.Db
  tx body db = tx_end db (body db)

-- The last entry of a list, as `Descend` finds it first.
abbrev pub last_of : {A : Type 0} → List A → Option A
last_of [] = none
last_of (x ∷ []) = some x
last_of (x ∷ y ∷ l) = last_of (y ∷ l)

-- The Root `r` is the last one of its head.
abbrev pub IsLast : {c : Cipher} → Option (DataRoot c) → RootsTree c → Type 0
IsLast none t = (s : ℕ) → t s ≡ none
IsLast (some r) t = (t r.seq ≡ some (facts r)) × ((s : ℕ) → r.seq < s → t s ≡ none)
