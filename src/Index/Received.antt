-- ===== src/Index/Received.antt =====
-- skyobject/index.go: what `ReceivedRoot` lets through.
use cxo.Prelude.{
  ℕ, ◌≡◌, ◌≢◌, refl, sym, ap, ◌∙◌, subst, Bool, true, false, Option, none, some, Error, Result, ok,
  err, panic, Outcome, returns, panics, inl, inr, ◌⊎◌, arith, Option-cases, Result-cases,
  if◌then◌else◌, ◌==◌,
}
use cxo.Prelude.Int.{ℤ}
use cxo.Cxds.{Val}
use cxo.Cipher.{Cipher}
use cxo.Data.{DataRoot}
use cxo.Registry.{Root}
use cxo.IdxDb.{IdxApi}
use cxo.IdxDb.Laws.{IsIdxDb}
use cxo.Index.{Index, after, in_tx, last_root, root_in_db, find_root, got_root}
use cxo.Index.Add.{check_received, received_found, received_root}
use cxo.Index.Agree.{IsIndexed, after_done}
use cxo.Index.Find.{IsStored, find_root_sound, find_root-IsIndexed, tx_value}

module _ {c : Cipher} (a : IdxApi c) (decode_root : Val → Result (Root c)) where
  -- The hash and the signature of a Root are those of the value, and the signature is good.
  abbrev pub IsChecked : c.PubKey → c.Sig → Val → Root c → Type 0
  IsChecked pk sig val r =
      (c.verify pk sig (c.sum val) ≡ none) × (r.hash ≡ c.sum val) × (r.sig ≡ sig)

  check_received-IsChecked :
      (pk : c.PubKey) (sig : c.Sig) (val : Val) (r : Root c)
      → check_received a decode_root pk sig val ≡ ok r
      → IsChecked pk sig val r × ((x : Root c) × (decode_root val ≡ ok x) × (r.is_full ≡ x.is_full))
  unfolding check_received
  check_received-IsChecked pk sig val r e = elim (Option-cases (c.verify pk sig (c.sum val))) [
    | inr (y, v) ↦ absurd (ground arith)
    | inl v ↦ elim (Result-cases (decode_root val)) [
      | inl (x, d) ↦
          let shape : check_received a decode_root pk sig val
              ≡ ok (record x { hash = c.sum val; sig = sig }) =
            rw (v, check_received, d) refl in
          let same : record x { hash = c.sum val; sig = sig } ≡ r = cc in
          subst
            (λ (z : Root c).
              IsChecked pk sig val z
              × ((x : Root c) × (decode_root val ≡ ok x) × (z.is_full ≡ x.is_full)))
            same ((v, refl, refl), (x, d, refl))
      | inr (inl (y, d)) ↦ absurd (ground arith)
      | inr (inr d) ↦ absurd (ground arith)
    ]
  ]

  -- A Root with the flag set, or the one that was checked.
  received_found-cases :
      (r0 r : Root c) (o : Outcome (Option (DataRoot c)) × Index a)
      → (received_found a decode_root r0 o).0 ≡ returns (some r) none
      → (r ≡ r0)
        ⊎ ((r ≡ record r0 { is_full = true })
            × (ir : Option (DataRoot c)) × (o.0 ≡ returns ir none))
  received_found-cases r0 r (returns ir none, i) e = inr (cc, ir, refl)
  received_found-cases r0 r (returns ir (some Error.not_found), i) e = inl cc
  received_found-cases r0 r (returns ir (some Error.no_such_head), i) e = inl cc
  received_found-cases r0 r (returns ir (some x), i) e = absurd (ground arith)
  received_found-cases r0 r (panics, i) e = absurd (ground arith)

  -- `ReceivedRoot` returns a Root only if its signature is good, with the hash and the signature of
  -- the received value.
  pub received_root-IsChecked :
      (pk : c.PubKey) (sig : c.Sig) (val : Val) (now : ℤ) (i : Index a) (r : Root c)
      → (received_root a decode_root pk sig val now i).0 ≡ returns (some r) none
      → IsChecked pk sig val r
  unfolding received_root
  received_root-IsChecked pk sig val now i r e =
      let (r0, checked, shape) = after_done (check_received a decode_root pk sig val) none i _ e in
      let e' = sym (ap (λ o. o.0) shape) ∙ e in
      let (good, _) = check_received-IsChecked pk sig val r0 checked in
      elim (received_found-cases r0 r (find_root a r0.feed r0.nonce r0.seq now i) e') [
        | inl same ↦ subst (IsChecked pk sig val) (sym same) good
        | inr (same, ir, found) ↦ subst (IsChecked pk sig val) (sym same) good
      ]

module _ {c : Cipher} {a : IdxApi c} (l : IsIdxDb a) where
  -- `findRoot` with no error finds a Root.
  find_root_some :
      (pk : c.PubKey) (n s : ℕ) (now : ℤ) (i : Index a)
      → (find_root a pk n s now i).0 ≢ returns none none
  unfolding find_root root_in_db
  find_root_some pk n s now i h = go (last_root a pk n i) h
    where
      got : (o : Result (DataRoot c) × a.Db) → (got_root a o).0 ≡ returns none none → ⊥
      got (ok z, db') h = ground arith
      got (err y, db') h = ground arith
      got (panic, db') h = ground arith

      roots :
          (dr : DataRoot c) (r : Result (Unit {0}))
          → (after r (some dr) i.db (λ _. got_root a (a.get_root pk n s now i.db))).0
            ≡ returns none none
          → ⊥
      roots dr (ok _) h = got (a.get_root pk n s now i.db) h
      roots dr (err y) h = ground arith
      roots dr panic h = ground arith

      heads :
          (dr : DataRoot c) (r : Result (Unit {0}))
          → (after r (some dr) i.db (λ _.
              after
                (a.open_roots pk n i.db)
                (some dr)
                i.db
                (λ _. got_root a (a.get_root pk n s now i.db)))).0
            ≡ returns none none
          → ⊥
      heads dr (ok _) h = roots dr (a.open_roots pk n i.db) h
      heads dr (err y) h = ground arith
      heads dr panic h = ground arith

      branch :
          (dr : DataRoot c) (b : Bool)
          → (if b then (returns (some dr) none, i) else in_tx a (root_in_db a pk n s now dr) i).0
            ≡ returns none none
          → ⊥
      branch dr true h = ground arith
      branch dr false h = elim (tx_value l (root_in_db a pk n s now dr) i.db h) [
        | inl v ↦ heads dr (a.open_heads pk i.db) v
        | inr (y, bad, v) ↦ ground arith
      ]

      go :
          (o : Result (DataRoot c))
          → (after o none i (λ dr.
              if dr.seq == s
              then (returns (some dr) none, i)
              else in_tx a (root_in_db a pk n s now dr) i)).0
            ≡ returns none none
          → ⊥
      go (ok dr) h = branch dr (dr.seq == s) h
      go (err y) h = ground arith
      go panic h = ground arith

  -- A Root that `ReceivedRoot` marks as full is in the database, if the decoder marks none.
  pub received_root_full :
      (decode_root : Val → Result (Root c)) (pk : c.PubKey) (sig : c.Sig) (val : Val) (now : ℤ)
      (i : Index a) (r : Root c)
      → IsIndexed l i
      → ((x : Root c) → decode_root val ≡ ok x → x.is_full ≡ false)
      → (received_root a decode_root pk sig val now i).0 ≡ returns (some r) none
      → r.is_full ≡ true
      → (x : DataRoot c) × (x.seq ≡ r.seq) × IsStored l r.feed r.nonce x i.db
  unfolding received_root
  received_root_full decode_root pk sig val now i r h plain e full =
      let (r0, checked, shape) = after_done (check_received a decode_root pk sig val) none i _ e in
      let e' = sym (ap (λ o. o.0) shape) ∙ e in
      let (good, rest) = check_received-IsChecked a decode_root pk sig val r0 checked in
      let (x0, decoded, same_flag) = rest in
      let unmarked : r0.is_full ≡ false = same_flag ∙ plain x0 decoded in
      elim (received_found-cases a decode_root r0 r (find_root a r0.feed r0.nonce r0.seq now i)
        e') [
          | inl same ↦
              let flag : r.is_full ≡ r0.is_full = ap (λ (z : Root c). z.is_full) same in
              absurd (ground arith)
          | inr (same, none, found) ↦ absurd (find_root_some r0.feed r0.nonce r0.seq now i found)
          | inr (same, some x, found) ↦
              let (numbered, stored) = find_root_sound l r0.feed r0.nonce r0.seq now x i h found in
              subst
                (λ (z : Root c).
                  (x : DataRoot c) × (x.seq ≡ z.seq) × IsStored l z.feed z.nonce x i.db)
                (sym same) (x, numbered, stored)
        ]

  received_found-state :
      (decode_root : Val → Result (Root c)) (r : Root c)
      (o : Outcome (Option (DataRoot c)) × Index a)
      → (received_found a decode_root r o).1 ≡ o.1
  received_found-state decode_root r (returns ir none, i) = refl
  received_found-state decode_root r (returns ir (some Error.not_found), i) = refl
  received_found-state decode_root r (returns ir (some Error.no_such_head), i) = refl
  received_found-state decode_root r (returns ir (some x), i) = refl
  received_found-state decode_root r (panics, i) = refl

  pub received_root-IsIndexed :
      (decode_root : Val → Result (Root c)) (pk : c.PubKey) (sig : c.Sig) (val : Val) (now : ℤ)
      (i : Index a)
      → IsIndexed l i
      → IsIndexed l (received_root a decode_root pk sig val now i).1
  unfolding received_root
  received_root-IsIndexed decode_root pk sig val now i h =
      go (check_received a decode_root pk sig val)
    where
      go :
          (o : Result (Root c))
          → IsIndexed l
              (after o none i
                (λ r. received_found a decode_root r (find_root a r.feed r.nonce r.seq now i))).1
      go (ok r) =
          subst (IsIndexed l)
            (sym (received_found-state decode_root r (find_root a r.feed r.nonce r.seq now i)))
            (find_root-IsIndexed l r.feed r.nonce r.seq now i h)
      go (err e) = h
      go panic = h
