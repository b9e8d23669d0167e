-- ===== src/Registry/Refs/CxdsPack.antt =====
-- skyobject/pack.go: the Pack of a Container, over a CXDS. The Container's `Get` and `Set` are those of
-- its cache, which call the database where the cache is turned off and has no item of the key, wanted
-- or filling.
use cxo.Prelude.{
  ◌≡◌, ◌≢◌, ◌⊎◌, inl, inr, refl, sym, ap, ◌∙◌, true, false, [], ◌∷◌, Option, none, some, Error,
  Result, ok, err, ℕ, length, ltb, is_empty, if◌then◌else◌, if_true, if_false, Bool-cases, ◌>>=◌,
  if_pos, if_neg,
}
use cxo.Prelude.Int.{pos}
use cxo.Cipher.{Cipher}
use cxo.Cxds.{Val}
use cxo.Cxds.Memory.{MemoryObject}
use cxo.CxdsApi.{CxdsApi, IsCxds, get_reply, after_set}
use cxo.Registry.Refs.{Flags, Pack}
use cxo.Registry.Refs.Kept.{PackLaws, ok-injective}

module _ {K : Type 0} (a : CxdsApi K) where
  -- `Pack.Get`
  abbrev pub pack_get : K → a.Db → Result Val
  pack_get key db = do r ← (a.get key (pos 0) db).0; ok r.0

  -- `Pack.Set`, with `MaxObjectSize`
  abbrev pub pack_set : ℕ → K → Val → a.Db → Result a.Db
  pack_set max_object_size key val db =
      if ltb max_object_size (length val)
      then err Error.object_is_too_large
      else (do _ ← (a.set key val (pos 1) db).0; ok (a.set key val (pos 1) db).1)

-- `Pack`
abbrev pub cxds_pack : {c : Cipher} (a : CxdsApi c.Sha256) → ℕ → Flags → ℕ → Pack c
cxds_pack a max_object_size flags degree = record {
  Store = a.Db;
  get = pack_get a;
  set = pack_set a max_object_size;
  flags = flags;
  degree = degree;
}

module _ {K : Type 0} {a : CxdsApi K} (l : IsCxds a) where
  pub get_view :
      (k : K) (db : a.Db) → pack_get a k db ≡ (get_reply (pos 0) (l.view db k) >>= (λ r. ok r.0))
  get_view k db = ap (λ o. o >>= (λ r. ok r.0)) (l.get_lem k (pos 0) db)

  -- A value that is there after `Set` of the same value.
  get_set :
      (k : K) (v : Val) (db : a.Db)
      → is_empty v ≡ false
      → ((w : Val) → pack_get a k db ≡ ok w → w ≡ v)
      → pack_get a k (a.set k v (pos 1) db).1 ≡ ok v
  get_set k [] db full same = cc
  get_set k (b ∷ bs) db full same =
      get_view k (a.set k (b ∷ bs) (pos 1) db).1
      ∙ ap (λ o. get_reply (pos 0) o >>= (λ r. ok r.0))
          (l.view-set k k b 0 bs db ∙ if_pos (a.dec k k) refl _ _)
      ∙ ap ok (go (l.view db k) refl)
    where
      go : (o : Option MemoryObject) → l.view db k ≡ o → (after_set (b ∷ bs) 0 o).val ≡ b ∷ bs
      go none e = refl
      go (some mo) e =
          same mo.val (get_view k db ∙ ap (λ o. get_reply (pos 0) o >>= (λ r. ok r.0)) e)

  get_set_other :
      (k j : K) (v : Val) (db : a.Db)
      → is_empty v ≡ false
      → j ≢ k
      → pack_get a j (a.set k v (pos 1) db).1 ≡ pack_get a j db
  get_set_other k j [] db full other = cc
  get_set_other k j (b ∷ bs) db full other =
      get_view j (a.set k (b ∷ bs) (pos 1) db).1
      ∙ ap (λ o. get_reply (pos 0) o >>= (λ r. ok r.0))
          (l.view-set k j b 0 bs db ∙ if_neg (a.dec k j) (λ e. other (sym e)) _ _)
      ∙ sym (get_view j db)

  module _ (max_object_size : ℕ) where
    abbrev pub IsTooLarge : Val → Error → Type 0
    IsTooLarge v e = (ltb max_object_size (length v) ≡ true) × (e ≡ Error.object_is_too_large)

    set-cases :
        (k : K) (v : Val) (db : a.Db)
        → is_empty v ≡ false
        → (pack_set a max_object_size k v db ≡ ok (a.set k v (pos 1) db).1)
          ⊎ ((e : Error) × IsTooLarge v e × (pack_set a max_object_size k v db ≡ err e))
    set-cases k [] db full = cc
    set-cases k (b ∷ bs) db full = elim (Bool-cases (ltb max_object_size (length (b ∷ bs)))) [
      | inl large ↦ inr (Error.object_is_too_large, (large, refl), if_true _ _ large)
      | inr fits ↦ inl (if_false _ _ fits ∙ rw (l.set_lem k b 0 bs db) refl)
    ]

    -- What `Set` has made of the database, if it succeeds.
    set_done :
        (k : K) (v : Val) (db db' : a.Db)
        → is_empty v ≡ false
        → pack_set a max_object_size k v db ≡ ok db'
        → (a.set k v (pos 1) db).1 ≡ db'
    set_done k v db db' full e = elim (set-cases k v db full) [
      | inl q ↦ ok-injective _ db' (sym q ∙ e)
      | inr (x, large, q) ↦ let clash : err x ≡ ok db' = sym q ∙ e in cc
    ]

pub cxds_pack-PackLaws :
    {c : Cipher} {a : CxdsApi c.Sha256} (l : IsCxds a) (max_object_size : ℕ) (flags : Flags)
    (degree : ℕ)
    → ((v w : Val) → c.sum v ≡ c.sum w → v ≡ w)
    → ((v : Val) → c.sum v ≢ c.blank_hash)
    → PackLaws c (cxds_pack a max_object_size flags degree)
cxds_pack-PackLaws {c} {a} l max_object_size flags degree injective known = record {
  Refuses = IsTooLarge l max_object_size;
  set_or = λ v st full. elim (set-cases l max_object_size (c.sum v) v st full) [
    | inl e ↦ inl ((a.set (c.sum v) v (pos 1) st).1, e)
    | inr failed ↦ inr failed
  ];
  get-set = λ v st st' full same e.
      ap (pack_get a (c.sum v)) (sym (set_done l max_object_size (c.sum v) v st st' full e))
      ∙ get_set l (c.sum v) v st full same;
  get-set_other = λ k v st st' full e other.
      ap (pack_get a k) (sym (set_done l max_object_size (c.sum v) v st st' full e))
      ∙ get_set_other l (c.sum v) k v st full other;
  sum-injective = injective;
  sum_known = known;
}
