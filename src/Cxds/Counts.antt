-- ===== src/Cxds/Counts.antt =====
-- The arithmetic of references counts in data/cxds/memory.go and data/cxds/drive.go.
use cxo.Prelude.{ℕ, zero, suc, ◌+◌, ◌<◌, ◌≡◌, arith}
use cxo.Prelude.Int.{ℤ, pos, negsuc, ◌-ℤ◌}
use cxo.Cxds.{u32, next_rc}

-- A references count stays a `uint32`.
pub next_rc-lt : (rc : ℕ) (inc : ℤ) → rc < u32 → next_rc rc inc < u32
unfolding next_rc
next_rc-lt rc (pos zero) h = h
next_rc-lt rc (pos (suc n)) h = omega arith
next_rc-lt rc (negsuc n) h = ground arith

-- A change that takes a count to another one takes it there, whatever the two are.
pub next_rc-target : (r m : ℕ) → r < u32 → m < u32 → next_rc r (pos m -ℤ pos r) ≡ m
unfolding next_rc ◌-ℤ◌
next_rc-target r m p q = ground arith

-- The change of the count does not leave the range of `uint32`.
abbrev pub Fits : ℕ → ℤ → Type 0
Fits n (pos k) = n + k < u32
Fits n (negsuc k) = suc k < u32
