-- ===== src/Tests/Refs.antt =====
-- skyobject/registry/refs.go at concrete inputs: a saved Refs of three hashes in two branches.
use cxo.Prelude.{
  ok, some, false, Option, ◌>>=◌, Safe, subst, ◌^◌, ◌%◌, ◌+◌, ◌==◌, if◌then◌else◌, Error, arith, ℕ,
  ℕ_discrete, ◌≡◌, refl, sym, ap, ◌∙◌, inr, List, [], ◌∷◌, none, if_pos, if_neg,
}
use cxo.Prelude.Int.{ℤ, pos}
use cxo.GoMap.{GoMap}
use cxo.Cxds.{Val}
use cxo.Registry.Refs.{Flags, EncodedNode, EncodedRefs, Refs}
use cxo.Registry.Refs.Load.{get_node, get_refs}
use cxo.Registry.Refs.Holds.{Stored, Saved, SavedRefs}
use cxo.Registry.Refs.Find.{hash_by_index}
use cxo.Registry.Refs.Finds.{HashAt, lookup_index, hash_by_index-HashAt}
use cxo.Registry.Refs.Ascend.{IterateFunc, ascend_from}
use cxo.Registry.Refs.Iterates.{Ascends, start_index, ascend_from-Ascends}
use cxo.Registry.Refs.Depth.{int_size, pow, pow-eq}
use cxo.Registry.Refs.Edits.{Edit, InRange, run, by_hash, run_reloads}
use cxo.Registry.Refs.Change.{set_hash_by_index}
use cxo.Registry.Refs.Delete.{delete_by_index}
use cxo.Registry.Refs.Kept.{Sound, Kept, ChangesAt, Refusal, ok-injective}
use cxo.Registry.Refs.CxdsPack.{get_view}
use cxo.Cxds.Memory.{MemoryObject, MemoryCxds, get, incr}
use cxo.CxdsApi.{get_reply}
use cxo.CxdsApi.InMemory.{memory_laws, memory-view}
use cxo.Registry.Refs.Sets.{set_index, set_hash_by_index-ChangesAt}
use cxo.Registry.Refs.Deletes.{remove_index, delete_by_index-ChangesAt}
use cxo.Tests.ListRefs.{lists, list_dec, list_codec, list_pack, list_laws, write_node, write_refs}
use mathlib.Core.List.{lookup}

abbrev left_node : EncodedNode lists
left_node = record { length = 2; elements = (7 ∷ []) ∷ (8 ∷ []) ∷ [] }

abbrev right_node : EncodedNode lists
right_node = record { length = 1; elements = (9 ∷ []) ∷ [] }

abbrev root_refs : EncodedRefs lists
root_refs = record {
  depth = 1;
  degree = 2;
  length = 3;
  elements = (1 ∷ write_node left_node) ∷ (1 ∷ write_node right_node) ∷ [];
}

abbrev once : Val → MemoryObject
once v = record { rc = 1; val = v }

abbrev three : MemoryCxds (List ℕ)
three = record {
  kvs =
      (1 ∷ write_refs root_refs, once (write_refs root_refs))
      ∷ (1 ∷ write_node left_node, once (write_node left_node))
      ∷ (1 ∷ write_node right_node, once (write_node right_node))
      ∷ [];
  amount_all = pos 3;
  amount_used = pos 3;
  volume_all = pos 17;
  volume_used = pos 17;
}

abbrev three_refs : Refs lists
three_refs = record { hash = 1 ∷ write_refs root_refs; body = none }

abbrev three_hashes : List (List ℕ)
three_hashes = (7 ∷ []) ∷ (8 ∷ []) ∷ (9 ∷ []) ∷ []

abbrev EachSound : GoMap (List ℕ) MemoryObject → Type 0
EachSound [] = Unit
EachSound ((k, mo) ∷ m) = (k ≡ 1 ∷ mo.val) × EachSound m

abbrev EntrySound : List ℕ → Option MemoryObject → Type 0
EntrySound k none = Unit
EntrySound k (some mo) = k ≡ 1 ∷ mo.val

lookup-EntrySound :
    (m : GoMap (List ℕ) MemoryObject)
    → EachSound m
    → (k : List ℕ) → EntrySound k (lookup list_dec k m)
unfolding lookup
lookup-EntrySound [] h k = tt
lookup-EntrySound ((j, w) ∷ m) (first, rest) k = elim (list_dec k j) [
  | yes same ↦
      subst (EntrySound k) (sym (if_pos (list_dec k j) same (some w) (lookup list_dec k m)))
        (same ∙ first)
  | no other ↦
      subst (EntrySound k) (sym (if_neg (list_dec k j) other (some w) (lookup list_dec k m)))
        (lookup-EntrySound m rest k)
]

three-Sound : Sound list_pack three
three-Sound k v got =
    go (lookup list_dec k three.kvs) (lookup-EntrySound three.kvs (refl, (refl, (refl, tt))) k) (
      sym (
        get_view (memory_laws list_dec) k three
        ∙ ap (λ o. get_reply (pos 0) o >>= (λ r. ok r.0)) (memory-view list_dec three k))
      ∙ got)
  where
    go :
        (o : Option MemoryObject)
        → EntrySound k o
        → (get_reply (pos 0) o >>= (λ r. ok r.0)) ≡ ok v
        → k ≡ 1 ∷ v
    go none sound e = cc
    go (some mo) sound e = sound ∙ ap (λ w. 1 ∷ w) (ok-injective mo.val v e)

left-Stored :
    Stored list_codec list_pack three 0 (1 ∷ write_node left_node) ((7 ∷ []) ∷ (8 ∷ []) ∷ [])
unfolding get_node get incr lookup list_dec ℕ_discrete
left-Stored = (left_node, refl, refl, refl)

right-Stored : Stored list_codec list_pack three 0 (1 ∷ write_node right_node) ((9 ∷ []) ∷ [])
unfolding get_node get incr lookup list_dec ℕ_discrete
right-Stored = (right_node, refl, refl, refl)

three-SavedRefs : SavedRefs list_codec list_pack three (1 ∷ write_refs root_refs) three_hashes
unfolding get_refs get incr lookup list_dec ℕ_discrete
three-SavedRefs = inr (
  refl,
  (
    root_refs,
    refl,
    refl,
    (λ e. cc),
    refl,
    (
      (7 ∷ []) ∷ (8 ∷ []) ∷ [],
      (9 ∷ []) ∷ [],
      (refl, left-Stored),
      ((9 ∷ []) ∷ [], [], (refl, right-Stored), refl, refl),
      refl,
    ),
  ),
)

three-Kept : Kept list_codec list_pack three three_refs three_hashes
three-Kept = (three-SavedRefs, three-SavedRefs, refl)

hash_by_index-HashAt_example :
    HashAt list_codec list_pack three
      (Saved list_codec list_pack three)
      three_hashes
      (lookup_index three_hashes (pos 2))
      (hash_by_index list_codec list_pack three three_refs (pos 2))
hash_by_index-HashAt_example =
    hash_by_index-HashAt list_codec list_pack three (Saved list_codec list_pack three)
      (λ d h xs s. s) three_refs three_hashes (pos 2) refl three-SavedRefs

set_hash_by_index-ChangesAt_example :
    ChangesAt list_codec list_laws three
      (set_index three_hashes (pos 2) (5 ∷ []))
      (lookup_index three_hashes (pos 2))
      (set_hash_by_index list_codec list_pack three three_refs (pos 2) (5 ∷ []))
set_hash_by_index-ChangesAt_example =
    set_hash_by_index-ChangesAt list_codec list_pack list_laws three three-Sound three_refs
      three_hashes (pos 2) (5 ∷ []) refl three-Kept

delete_by_index-ChangesAt_example :
    ChangesAt list_codec list_laws three
      (remove_index three_hashes (pos 2))
      (lookup_index three_hashes (pos 2))
      (delete_by_index list_codec list_pack three three_refs (pos 2))
delete_by_index-ChangesAt_example =
    delete_by_index-ChangesAt list_codec list_pack list_laws three three-Sound three_refs
      three_hashes (pos 2) refl three-Kept

-- Adds up the first numbers of the hashes and stops at a 8.
abbrev add_up : IterateFunc (List ℕ) ℕ
add_up i [] s = (s, none)
add_up i (n ∷ h) s = if n == 8 then (s, some Error.stop_iteration) else (s + n, none)

ascend_from-Ascends_example :
    Ascends list_codec list_pack three
      (Saved list_codec list_pack three)
      add_up
      three_hashes
      0
      (start_index three_hashes (pos 1))
      (ascend_from list_codec list_pack add_up three three_refs (pos 1) 0)
ascend_from-Ascends_example =
    ascend_from-Ascends list_codec list_pack three (Saved list_codec list_pack three)
      (λ d h xs s. s) add_up three_refs three_hashes (pos 1) 0 refl three-SavedRefs

pow-eq_example : pow 3 41 ≡ 3 ^ 41 % int_size
pow-eq_example = pow-eq 3 41 (omega arith)

abbrev small : Flags
small = record { hash_table = false; entire = false; lazy = false }

abbrev three_edits : List (Edit (List ℕ))
three_edits = Edit.set_hash (pos 0) (5 ∷ []) ∷ Edit.delete (pos 2) ∷ Edit.delete (pos 0) ∷ []

three_edits-InRange : InRange three_hashes three_edits
three_edits-InRange = ((λ e. cc), ((λ e. cc), ((λ e. cc), tt)))

run_reloads_example :
    Safe
      (Refusal list_laws)
      (λ y.
        (i : ℤ)
        → HashAt list_codec list_pack y.0
            (Saved list_codec list_pack y.0)
            ((8 ∷ []) ∷ [])
            (lookup_index ((8 ∷ []) ∷ []) i)
            (hash_by_index list_codec list_pack y.0 (by_hash list_codec list_pack y.1.hash) i))
      (run list_codec list_pack three three_refs three_edits)
run_reloads_example =
    run_reloads list_codec list_pack list_laws refl three_edits three three_refs three_hashes
      three-Sound three-Kept three_edits-InRange
