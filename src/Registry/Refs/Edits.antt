-- ===== src/Registry/Refs/Edits.antt =====
-- skyobject/registry: a sequence of calls of `SetHashByIndex` and `DeleteByIndex`, and the loading of
-- what they save.
use cxo.Prelude.{
  Safe, Safe-bind, inl, inr, ◌≡◌, refl, ◌≢◌, List, [], ◌∷◌, Option, none, some, Result, ok, ◌>>=◌,
}
use cxo.Prelude.Int.{ℤ}
use cxo.Cipher.{Cipher}
use cxo.Registry.Refs.{RefsCodec, Pack, Refs}
use cxo.Registry.Refs.Load.{validate_degree}
use cxo.Registry.Refs.Holds.{Saved}
use cxo.Registry.Refs.Find.{hash_by_index}
use cxo.Registry.Refs.Finds.{HashAt, lookup_index, hash_by_index-HashAt}
use cxo.Registry.Refs.Change.{set_hash_by_index}
use cxo.Registry.Refs.Delete.{delete_by_index}
use cxo.Registry.Refs.Kept.{PackLaws, Refusal, Sound, Kept, ChangesTo, ChangesAt}
use cxo.Registry.Refs.Sets.{set_index, set_hash_by_index-ChangesAt}
use cxo.Registry.Refs.Deletes.{remove_index, delete_by_index-ChangesAt}

pub data Edit (H : Type 0) : Type 0 where
  set_hash : ℤ → H → Edit H
  delete : ℤ → Edit H

-- The edits of a list. Each index is one of the list.
abbrev pub edit_index : {H : Type 0} → Edit H → ℤ
edit_index (Edit.set_hash i h) = i
edit_index (Edit.delete i) = i

abbrev pub edit_list : {H : Type 0} → List H → Edit H → List H
edit_list xs (Edit.set_hash i h) = set_index xs i h
edit_list xs (Edit.delete i) = remove_index xs i

abbrev pub edit_all : {H : Type 0} → List H → List (Edit H) → List H
edit_all xs [] = xs
edit_all xs (e ∷ es) = edit_all (edit_list xs e) es

abbrev pub InRange : {H : Type 0} → List H → List (Edit H) → Type 0
InRange xs [] = Unit
InRange xs (e ∷ es) = (lookup_index xs (edit_index e) ≢ none) × InRange (edit_list xs e) es

module _ {c : Cipher} (codec : RefsCodec c) (p : Pack c) where
  abbrev pub edit : p.Store → Refs c → Edit c.Sha256 → Result (p.Store × Refs c)
  edit st r (Edit.set_hash i h) = set_hash_by_index codec p st r i h
  edit st r (Edit.delete i) = delete_by_index codec p st r i

  abbrev pub run : p.Store → Refs c → List (Edit c.Sha256) → Result (p.Store × Refs c)
  run st r [] = ok (st, r)
  run st r (e ∷ es) = do x ← edit st r e; run x.0 x.1 es

  -- A Refs of which only the hash is known.
  abbrev pub by_hash : c.Sha256 → Refs c
  by_hash hash = record { hash = hash; body = none }

module _ {c : Cipher} (codec : RefsCodec c) (p : Pack c) (laws : PackLaws c p)
    (valid : validate_degree p.degree ≡ none) where
  change_there :
      (st : p.Store) (xs : List c.Sha256) (o : Option c.Sha256) (x : Result (p.Store × Refs c))
      → o ≢ none
      → ChangesAt codec laws st xs o x
      → ChangesTo codec laws st xs x
  change_there st xs none x there change = absurd (there refl)
  change_there st xs (some h) x there change = change

  edit-ChangesTo :
      (st : p.Store) (r : Refs c) (xs : List c.Sha256) (e : Edit c.Sha256)
      → Sound p st
      → Kept codec p st r xs
      → lookup_index xs (edit_index e) ≢ none
      → ChangesTo codec laws st (edit_list xs e) (edit codec p st r e)
  edit-ChangesTo st r xs (Edit.set_hash i h) sound kept there =
      change_there st (set_index xs i h) (lookup_index xs i) _ there
        (set_hash_by_index-ChangesAt codec p laws st sound r xs i h valid kept)
  edit-ChangesTo st r xs (Edit.delete i) sound kept there =
      change_there st (remove_index xs i) (lookup_index xs i) _ there
        (delete_by_index-ChangesAt codec p laws st sound r xs i valid kept)

  run-ChangesTo :
      (es : List (Edit c.Sha256)) (st : p.Store) (r : Refs c) (xs : List c.Sha256)
      → Sound p st
      → Kept codec p st r xs
      → InRange xs es
      → ChangesTo codec laws st (edit_all xs es) (run codec p st r es)
  run-ChangesTo [] st r xs sound kept there = inl ((st, r), refl, (sound, (λ k v got. got), kept))
  run-ChangesTo (e ∷ es) st r xs sound kept (there, rest) =
      Safe-bind (Refusal laws) _ _ _ _ (edit-ChangesTo st r xs e sound kept there)
        (λ y (sound1, grows1, kept1).
          elim (run-ChangesTo es y.0 y.1 (edit_list xs e) sound1 kept1 rest) [
            | inr failed ↦ inr failed
            | inl (z, done, (sound2, grows2, kept2)) ↦
                inl (z, done, (sound2, (λ k v got. grows2 k v (grows1 k v got)), kept2))
          ])

  -- Any sequence of `SetHashByIndex` and `DeleteByIndex` with indices in range, of a Refs that holds
  -- a list, is saved with it and is not lazy, with a valid default degree, in a store that has each
  -- value under its sum, for a sum without collisions that is never blank: either the store refuses a value, and the
  -- error is what the sequence gives, or every call succeeds, and a Refs that is loaded afresh by the
  -- hash that the last call leaves gives, by `HashByIndex` with any index, what the list that is
  -- changed in the same way has there, and `ErrIndexOutOfRange` where it has nothing.
  pub run_reloads :
      (es : List (Edit c.Sha256)) (st : p.Store) (r : Refs c) (xs : List c.Sha256)
      → Sound p st
      → Kept codec p st r xs
      → InRange xs es
      → Safe
          (Refusal laws)
          (λ y.
            (i : ℤ)
            → HashAt codec p y.0
                (Saved codec p y.0)
                (edit_all xs es)
                (lookup_index (edit_all xs es) i)
                (hash_by_index codec p y.0 (by_hash codec p y.1.hash) i))
          (run codec p st r es)
  run_reloads es st r xs sound kept there = elim (run-ChangesTo es st r xs sound kept there) [
    | inr failed ↦ inr failed
    | inl (y, done, (sound', grows, (holds, saved, busy))) ↦ inl (
      y,
      done,
      λ i.
          hash_by_index-HashAt codec p y.0 (Saved codec p y.0) (λ d h ys s. s)
            (by_hash codec p y.1.hash) (edit_all xs es) i valid saved,
    )
  ]
