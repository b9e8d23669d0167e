-- ===== src/Tests/Index.antt =====
-- skyobject/index.go at concrete inputs, over a database of association lists.
use cxo.Prelude.{
  length, ℕ, ◌≡◌, refl, true, false, [], ◌∷◌, some, none, Error, Result, ok, err, returns, panics,
  ℕ_discrete,
}
use cxo.Prelude.Int.{ℤ, pos, ◌==ℤ◌}
use cxo.GoMap.{insert, delete}
use cxo.Cxds.{Val}
use cxo.Registry.{Root}
use cxo.IdxDb.{tx}
use cxo.Index.{
  in_tx, Index, head_of, last_root, find_root, stored_root, add_head, active_head, has_head,
}
use cxo.Index.Add.{check_received, received_root}
use cxo.Index.Delete.{del_head, del_root, head_from_db, root_from_db, find_last, look_for_last}
use cxo.Index.Flaws.{add_head_clears, del_head_active, del_root_panics}
use cxo.Index.Stored.{forget_value, stored_root-eq}
use cxo.Index.Received.{IsChecked, received_root-IsChecked}
use cxo.Tests.ListIdxDb.{numbers, Stored, Feeds, data_of, top, list_idx_db}
use mathlib.Core.List.{lookup}

abbrev first_stored : Stored
first_stored = record {
  create = pos 1;
  access = pos 1;
  time = pos 10;
  prev = 0;
  hash = 21;
  sig = 31;
}

abbrev second_stored : Stored
second_stored = record {
  create = pos 2;
  access = pos 2;
  time = pos 20;
  prev = 21;
  hash = 22;
  sig = 32;
}

-- Head 7 of feed 5 with two Root objects, and with the second one only.
abbrev two_roots : Feeds
two_roots = (5, (7, (0, first_stored) ∷ (1, second_stored) ∷ []) ∷ []) ∷ []

abbrev one_root : Feeds
one_root = (5, (7, (1, second_stored) ∷ []) ∷ []) ∷ []

abbrev index_of : Feeds → Index list_idx_db
index_of db = record {
  feeds =
      (5, record { h = (7, some (data_of 1 second_stored)) ∷ []; activen = 7; activet = pos 20 })
      ∷ [];
  feeds_list = [];
  db = db;
}

abbrev root : ℕ → ℤ → Root numbers
root seq time = record {
  feed = 5;
  nonce = 7;
  seq = seq;
  time = time;
  sig = 33;
  hash = 23;
  prev = 22;
  is_full = true;
}

no_eighth : head_of list_idx_db 5 8 (index_of two_roots).feeds ≡ err Error.no_such_head
unfolding head_of lookup ℕ_discrete
no_eighth = refl

adds_eighth : (add_head list_idx_db 5 8 (index_of two_roots)).0 ≡ returns tt none
unfolding add_head head_of tx lookup ℕ_discrete insert
adds_eighth = refl

add_head_clears_example :
    has_head list_idx_db 5 7 (add_head list_idx_db 5 8 (index_of two_roots)).1 ≡ false
add_head_clears_example =
    add_head_clears list_idx_db 5 8 7 (index_of two_roots) no_eighth adds_eighth

seventh_active : active_head list_idx_db 5 (index_of two_roots) ≡ 7
unfolding active_head lookup ℕ_discrete
seventh_active = refl

deletes_seventh : (del_head list_idx_db 5 7 (index_of two_roots)).0 ≡ returns (21 ∷ 22 ∷ []) none
unfolding del_head head_of head_from_db tx lookup ℕ_discrete insert delete top
deletes_seventh = refl

del_head_active_example :
    (active_head list_idx_db 5 (del_head list_idx_db 5 7 (index_of two_roots)).1 ≡ 7)
    × (has_head list_idx_db 5 7 (del_head list_idx_db 5 7 (index_of two_roots)).1 ≡ false)
del_head_active_example =
    del_head_active list_idx_db 5 7 (21 ∷ 22 ∷ []) (index_of two_roots) seventh_active
      deletes_seventh

only_root_removed :
    (in_tx list_idx_db
      (root_from_db list_idx_db 5 7 1 (pos 40) (some (data_of 1 second_stored)))
      (index_of one_root)).0
    ≡ returns (look_for_last list_idx_db 22 (data_of 1 second_stored) none) none
unfolding root_from_db find_last tx lookup ℕ_discrete insert delete top
only_root_removed = refl

is_active_root : (pos 20 ==ℤ pos 20) ≡ true
is_active_root = refl

feed_five :
    lookup ℕ_discrete 5 (index_of one_root).feeds
    ≡ some (record { h = (7, some (data_of 1 second_stored)) ∷ []; activen = 7; activet = pos 20 })
unfolding lookup ℕ_discrete
feed_five = refl

head_seven :
    lookup ℕ_discrete 7 ((7, some (data_of 1 second_stored)) ∷ [])
    ≡ some (some (data_of 1 second_stored))
unfolding lookup ℕ_discrete
head_seven = refl

del_root_panics_example : (del_root list_idx_db 5 7 1 (pos 40) (index_of one_root)).0 ≡ panics
del_root_panics_example =
    del_root_panics list_idx_db 5 7 (pos 40) (data_of 1 second_stored) 22
      (record { h = (7, some (data_of 1 second_stored)) ∷ []; activen = 7; activet = pos 20 })
      (index_of one_root) feed_five head_seven is_active_root only_root_removed

stored_root-eq_example :
    forget_value (stored_root list_idx_db 5 7 0 (pos 40) (index_of two_roots))
    ≡ forget_value (find_root list_idx_db 5 7 0 (pos 40) (index_of two_roots))
stored_root-eq_example = stored_root-eq list_idx_db 5 7 0 (pos 40) (index_of two_roots)

-- A value is the number of its Root.
abbrev decode : Val → Result (Root numbers)
decode val = ok (record (root (length val) (pos 20)) { is_full = false })

abbrev received : Root numbers
received = record (root 1 (pos 20)) { hash = 1; sig = 5 }

receives :
    (received_root list_idx_db decode 5 5 (9 ∷ []) (pos 40) (index_of two_roots)).0
    ≡ returns (some received) none
unfolding received_root check_received find_root last_root head_of lookup ℕ_discrete
receives = refl

received_root-IsChecked_example : IsChecked list_idx_db decode 5 5 (9 ∷ []) received
received_root-IsChecked_example =
    received_root-IsChecked list_idx_db decode 5 5 (9 ∷ []) (pos 40) (index_of two_roots) received
      receives
