-- ===== src/Cxds/Drive/Sequences.antt =====
-- data/cxds/memory.go and data/cxds/drive.go under the same sequence of calls, and where they part.
use cxo.Prelude.{ℕ, suc, ◌<◌, ◌≡◌, refl, ap, List, [], ◌∷◌, none, Result, ok, arith, inl}
use cxo.Prelude.Int.{ℤ, pos}
use cxo.Bolt.{Bolt, IsReliable}
use cxo.Cxds.{Val, u32}
use cxo.Cxds.Memory.{MemoryCxds}
use cxo.Cxds.Memory
use cxo.Cxds.Drive.{DriveCxds}
use cxo.Cxds.Drive
use cxo.Cxds.Drive.Agree.{Agrees}
use cxo.Cxds.Drive.Refines.{get-Agrees, inc_rc-Agrees, set-Agrees, set_new-Agrees}
use mathlib.Core.List.{lookup}

-- A call of the interface `data.CXDS`, and what it returned.
pub data Call (K : Type 0) : Type 0 where
  get : K → ℤ → Call K
  inc : K → ℤ → Call K
  set_once : K → Val → Call K

pub data Reply : Type 0 where
  value : Result (Val × ℕ) → Reply
  count : Result ℕ → Reply

module _ {K : Type 0} (o : Bolt K) where
  unfoldable pub memory_call : Call K → MemoryCxds K → Reply × MemoryCxds K
  memory_call (get key i) m = let (x, m') = Memory.get o.dec key i m in (value x, m')
  memory_call (inc key i) m = let (x, m') = Memory.inc_rc o.dec key i m in (count x, m')
  memory_call (set_once key v) m = let (x, m') = Memory.set o.dec key v (pos 1) m in (count x, m')

  unfoldable pub drive_call : Call K → DriveCxds o → Reply × DriveCxds o
  drive_call (get key i) d = let (x, d') = Drive.get o key i d in (value x, d')
  drive_call (inc key i) d = let (x, d') = Drive.inc_rc o key i d in (count x, d')
  drive_call (set_once key v) d = let (x, d') = Drive.set o key v (pos 1) d in (count x, d')

  unfoldable pub memory_replies : List (Call K) → MemoryCxds K → List Reply
  memory_replies [] m = []
  memory_replies (c ∷ cs) m = let (x, m') = memory_call c m in x ∷ memory_replies cs m'

  unfoldable pub drive_replies : List (Call K) → DriveCxds o → List Reply
  drive_replies [] d = []
  drive_replies (c ∷ cs) d = let (x, d') = drive_call c d in x ∷ drive_replies cs d'

  module _ (r : IsReliable o) where
    call-Agrees :
        (c : Call K) (m : MemoryCxds K) (d : DriveCxds o)
        → Agrees o m d
        → (d' : DriveCxds o) × (drive_call c d ≡ ((memory_call c m).0, d'))
          × Agrees o (memory_call c m).1 d'
    unfolding drive_call memory_call
    call-Agrees (get key i) m d a = let (d', e, a') = get-Agrees o r key i m d a in (d', rw e, a')
    call-Agrees (inc key i) m d a =
        let (d', e, a') = inc_rc-Agrees o r key i m d a in (d', rw e, a')
    call-Agrees (set_once key v) m d a =
        let (d', e, a') = set-Agrees o r key v (pos 1) m d (inl refl) a in (d', rw e, a')

    -- Where BoltDB succeeds, a client of `data.CXDS` that sets objects by one cannot tell apart two
    -- implementations that agree: the replies to any sequence of `Get`, `Inc` and `Set` are the same.
    pub replies-eq :
        (cs : List (Call K)) (m : MemoryCxds K) (d : DriveCxds o)
        → Agrees o m d
        → drive_replies cs d ≡ memory_replies cs m
    unfolding drive_replies memory_replies
    replies-eq [] m d a = refl
    replies-eq (c ∷ cs) m d a =
        let (d', e, a') = call-Agrees c m d a in
        rw e (ap (◌∷◌ (memory_call c m).0) (replies-eq cs (memory_call c m).1 d' a'))

  -- Where BoltDB succeeds and the two agree, `Set` of a new object by `inc`, a positive `uint32`,
  -- returns `inc` references from the map and one reference from the drive.
  pub set_new_differs :
      (key : K) (b : ℕ) (bs : Val) (n : ℕ) (m : MemoryCxds K) (d : DriveCxds o)
      → IsReliable o
      → suc n < u32
      → lookup o.dec key m.kvs ≡ none
      → Agrees o m d
      → ((Memory.set o.dec key (b ∷ bs) (pos (suc n)) m).0 ≡ ok (suc n))
        × ((Drive.set o key (b ∷ bs) (pos (suc n)) d).0 ≡ ok 1)
  unfolding Memory.set Memory.set_value Drive.set
  set_new_differs key b bs n m d r lt e a = (
    rw (e, Memory.set_value) (ap ok (omega arith)),
    let (d', de, a') = set_new-Agrees o r key (b ∷ bs) (pos (suc n)) m d e a in rw de,
  )
