-- ===== src/Cxds.antt =====
-- data/cxds/cxds.go and the shared vocabulary of data/cxds.go: the version of the database, the
-- references count in front of a stored value, and the arithmetic of references counts.
pub mod Bytes
pub mod Counts
pub mod Memory
pub mod Drive
use cxo.Prelude.{ℕ, zero, suc, ◌+◌, ◌-◌, ◌%◌, if◌then◌else◌, leb, List}
use cxo.Prelude.Int.{ℤ, pos, negsuc}

abbrev pub Val : Type 0
Val = List ℕ

-- The modulus of `uint32`.
abbrev pub u32 : ℕ
u32 = 4294967296

-- The new references count: `rc` changed by `inc`, as the `switch` of `incr` on drive has it.
-- `uint32(inc)` keeps the low 32 bits; a decrement stops at zero and an increment wraps around.
unfoldable pub next_rc : ℕ → ℤ → ℕ
next_rc rc (pos zero) = rc
next_rc rc (pos (suc n)) = (rc + suc n % u32) % u32
next_rc rc (negsuc n) = if leb rc (suc n % u32) then 0 else rc - suc n % u32

-- `uint32(i)` of a Go `int`.
unfoldable pub to_uint32 : ℤ → ℕ
to_uint32 (pos n) = n % u32
to_uint32 (negsuc n) = u32 - 1 - n % u32
