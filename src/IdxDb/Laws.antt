-- ===== src/IdxDb/Laws.antt =====
-- data/idxdb.go: what the methods of an index database do to its tree.
use cxo.Prelude.{ℕ, ◌≡◌, Option, none, some, Error, Result, ok, err, ite, ℕ_discrete}
use cxo.Prelude.Int.{ℤ}
use cxo.Cipher.{Cipher}
use cxo.Data.{DataRoot}
use cxo.IdxDb.{IdxApi, Facts, facts, RootsTree, HeadsTree, IsLast, is_in, is_there, last_of}
use mathlib.Core.Option.{get_or}

-- A handle is given out for what is there.
abbrev pub opens : {A : Type 0} → Error → Option A → Result (Unit {0})
opens e none = err e
opens e (some x) = ok tt

module _ {c : Cipher} where
  abbrev pub no_heads : HeadsTree c
  no_heads n = none

  abbrev pub no_roots : RootsTree c
  no_roots s = none

  -- The heads of a feed with the Root objects of one of them set.
  abbrev pub put_roots : HeadsTree c → ℕ → Option (RootsTree c) → HeadsTree c
  put_roots t n rs m = ite (ℕ_discrete n m) rs (t m)

  abbrev pub put_facts : RootsTree c → ℕ → Option (Facts c) → RootsTree c
  put_facts rs s x k = ite (ℕ_discrete s k) x (rs k)

  -- The feeds with the heads of one of them set.
  abbrev pub put_heads :
      (c.PubKey → Option (HeadsTree c))
      → c.PubKey
      → Option (HeadsTree c)
      → c.PubKey
      → Option (HeadsTree c)
  put_heads f p t q = ite (c.pub_dec p q) t (f q)

pub record IsIdxDb {c : Cipher} (a : IdxApi c) : Type 0 where
  pub tree : a.Db → c.PubKey → Option (HeadsTree c)
  pub feeds_lem : (p : c.PubKey) (db : a.Db) → is_in c.pub_dec p (a.feeds db) ≡ is_there (tree db p)
  pub heads_lem :
      (p : c.PubKey) (n : ℕ) (db : a.Db) (t : HeadsTree c)
      → tree db p ≡ some t
      → is_in ℕ_discrete n (a.heads p db) ≡ is_there (t n)
  pub roots_lem :
      (p : c.PubKey) (n : ℕ) (db : a.Db) (t : HeadsTree c) (rs : RootsTree c)
      → tree db p ≡ some t
      → t n ≡ some rs
      → IsLast (last_of (a.roots p n db)) rs
  pub open_heads_lem :
      (p : c.PubKey) (db : a.Db) → a.open_heads p db ≡ opens Error.no_such_feed (tree db p)
  pub open_roots_lem :
      (p : c.PubKey) (n : ℕ) (db : a.Db) (t : HeadsTree c)
      → tree db p ≡ some t
      → a.open_roots p n db ≡ opens Error.no_such_head (t n)
  pub tree-add_feed :
      (p q : c.PubKey) (db : a.Db)
      → (a.add_feed p db).0 ≡ ok tt
      → tree (a.add_feed p db).1 q ≡ put_heads (tree db) p (some (get_or (tree db p) no_heads)) q
  pub tree-del_feed :
      (p q : c.PubKey) (db : a.Db)
      → (a.del_feed p db).0 ≡ ok tt
      → tree (a.del_feed p db).1 q ≡ put_heads (tree db) p none q
  pub tree-add_head :
      (p q : c.PubKey) (n : ℕ) (db : a.Db) (t : HeadsTree c)
      → tree db p ≡ some t
      → (a.add_head p n db).0 ≡ ok tt
      → tree (a.add_head p n db).1 q
        ≡ put_heads (tree db) p (some (put_roots t n (some (get_or (t n) no_roots)))) q
  pub tree-del_head :
      (p q : c.PubKey) (n : ℕ) (db : a.Db) (t : HeadsTree c)
      → tree db p ≡ some t
      → (a.del_head p n db).0 ≡ ok tt
      → tree (a.del_head p n db).1 q ≡ put_heads (tree db) p (some (put_roots t n none)) q
  pub has_root_lem :
      (p : c.PubKey) (n s : ℕ) (db : a.Db) (t : HeadsTree c) (rs : RootsTree c)
      → tree db p ≡ some t
      → t n ≡ some rs
      → a.has_root p n s db ≡ ok (is_there (rs s))
  -- `Get` returns what is there, or `ErrNotFound`, and changes the time of access only
  pub get_root_missing :
      (p : c.PubKey) (n s : ℕ) (now : ℤ) (db : a.Db) (t : HeadsTree c) (rs : RootsTree c)
      → tree db p ≡ some t
      → t n ≡ some rs
      → rs s ≡ none
      → (a.get_root p n s now db).0 ≡ err Error.not_found
  pub get_root_found :
      (p : c.PubKey) (n s : ℕ) (now : ℤ) (db : a.Db) (t : HeadsTree c) (rs : RootsTree c)
      (r : DataRoot c)
      → tree db p ≡ some t
      → t n ≡ some rs
      → (a.get_root p n s now db).0 ≡ ok r
      → (r.seq ≡ s) × (rs s ≡ some (facts r))
  pub tree-get_root :
      (p q : c.PubKey) (n s : ℕ) (now : ℤ) (db : a.Db)
      → tree (a.get_root p n s now db).1 q ≡ tree db q
  -- `Set` of a Root that is there changes the time of access only
  pub tree-set_root :
      (p q : c.PubKey) (n : ℕ) (r r' : DataRoot c) (now : ℤ) (db : a.Db) (t : HeadsTree c)
      (rs : RootsTree c)
      → tree db p ≡ some t
      → t n ≡ some rs
      → (a.set_root p n r now db).0 ≡ ok r'
      → tree (a.set_root p n r now db).1 q
        ≡ put_heads
            (tree db)
            p
            (some (put_roots t n (some (put_facts rs r.seq (some (get_or (rs r.seq) (facts r)))))))
            q
  pub set_root_same :
      (p : c.PubKey) (n : ℕ) (r r' : DataRoot c) (now : ℤ) (db : a.Db)
      → (a.set_root p n r now db).0 ≡ ok r'
      → (r'.seq ≡ r.seq) × (facts r' ≡ facts r)
  pub tree-del_root :
      (p q : c.PubKey) (n s : ℕ) (db : a.Db) (t : HeadsTree c) (rs : RootsTree c)
      → tree db p ≡ some t
      → t n ≡ some rs
      → (a.del_root p n s db).0 ≡ ok tt
      → tree (a.del_root p n s db).1 q
        ≡ put_heads (tree db) p (some (put_roots t n (some (put_facts rs s none)))) q
