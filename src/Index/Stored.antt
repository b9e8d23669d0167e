-- ===== src/Index/Stored.antt =====
-- skyobject/index.go: `dataRoot` against `findRoot`.
use cxo.Prelude.{
  ℕ, ◌≡◌, refl, sym, ap, ◌∙◌, subst, Bool, true, false, Option, none, some, Result, ok, err, panic,
  Outcome, returns, panics, if◌then◌else◌, ◌==◌,
}
use cxo.Prelude.Int.{ℤ}
use cxo.Cipher.{Cipher}
use cxo.Data.{DataRoot}
use cxo.IdxDb.{IdxApi, tx, tx_end}
use cxo.IdxDb.Laws.{IsIdxDb}
use cxo.Index.Agree.{IsIndexed}
use cxo.Index.Find.{find_root-IsIndexed}
use cxo.Index.{
  Index, after, in_tx, last_root, root_in_db, root_of_db, find_root, stored_root, got_root,
}

-- The value beside an error is not looked at.
abbrev pub forget_value : {A S : Type 0} → Outcome (Option A) × S → Outcome (Option A) × S
forget_value (returns x none, s) = (returns x none, s)
forget_value (returns x (some e), s) = (returns none (some e), s)
forget_value (panics, s) = (panics, s)

module _ {c : Cipher} (a : IdxApi c) where
  -- `dataRoot` returns what `findRoot` returns, but for the value beside an error, and leaves the
  -- same index.
  pub stored_root-eq :
      (pk : c.PubKey) (n s : ℕ) (now : ℤ) (i : Index a)
      → forget_value (stored_root a pk n s now i) ≡ forget_value (find_root a pk n s now i)
  unfolding stored_root find_root root_in_db root_of_db tx
  stored_root-eq pk n s now i = go (last_root a pk n i)
    where
      ended : Outcome (Option (DataRoot c)) × a.Db → Outcome (Option (DataRoot c)) × Index a
      ended o = ((tx_end a i.db o).0, record i { db = (tx_end a i.db o).1 })

      get : Unit {0} → Outcome (Option (DataRoot c)) × a.Db
      get _ = got_root a (a.get_root pk n s now i.db)

      roots :
          (dr : DataRoot c) (r : Result (Unit {0}))
          → forget_value (ended (after r none i.db get))
            ≡ forget_value (ended (after r (some dr) i.db get))
      roots dr (ok _) = refl
      roots dr (err e) = refl
      roots dr panic = refl

      heads :
          (dr : DataRoot c) (r : Result (Unit {0}))
          → forget_value
              (ended (after r none i.db (λ _. after (a.open_roots pk n i.db) none i.db get)))
            ≡ forget_value (
                ended
                  (after r (some dr) i.db (λ _. after (a.open_roots pk n i.db) (some dr) i.db get)))
      heads dr (ok _) = roots dr (a.open_roots pk n i.db)
      heads dr (err e) = refl
      heads dr panic = refl

      branch :
          (dr : DataRoot c) (b : Bool)
          → forget_value
              (if b then (returns (some dr) none, i) else in_tx a (root_of_db a pk n s now) i)
            ≡ forget_value
                (if b then (returns (some dr) none, i) else in_tx a (root_in_db a pk n s now dr) i)
      branch dr true = refl
      branch dr false = heads dr (a.open_heads pk i.db)

      go :
          (o : Result (DataRoot c))
          → forget_value (
              after o none i (λ dr.
                if dr.seq == s
                then (returns (some dr) none, i)
                else in_tx a (root_of_db a pk n s now) i))
            ≡ forget_value (
                after o none i (λ dr.
                  if dr.seq == s
                  then (returns (some dr) none, i)
                  else in_tx a (root_in_db a pk n s now dr) i))
      go (ok dr) = branch dr (dr.seq == s)
      go (err e) = refl
      go panic = refl

forget_value-state : {A S : Type 0} (o : Outcome (Option A) × S) → (forget_value o).1 ≡ o.1
forget_value-state (returns x none, s) = refl
forget_value-state (returns x (some e), s) = refl
forget_value-state (panics, s) = refl

module _ {c : Cipher} {a : IdxApi c} (l : IsIdxDb a) where
  pub stored_root-IsIndexed :
      (pk : c.PubKey) (n s : ℕ) (now : ℤ) (i : Index a)
      → IsIndexed l i
      → IsIndexed l (stored_root a pk n s now i).1
  stored_root-IsIndexed pk n s now i h =
      let same : (find_root a pk n s now i).1 ≡ (stored_root a pk n s now i).1 =
        sym (forget_value-state (find_root a pk n s now i))
        ∙ sym (ap (λ o. o.1) (stored_root-eq a pk n s now i))
        ∙ forget_value-state (stored_root a pk n s now i) in
      subst (IsIndexed l) same (find_root-IsIndexed l pk n s now i h)
