-- ===== src/Cxds/Bytes.antt =====
-- data/cxds/cxds.go: big-endian `uint32` values, the references count in front of a value, and
-- `incSlice`, which steps a key of an iteration.
use cxo.Prelude.{
  ℕ, suc, ◌+◌, ◌*◌, ◌/◌, ◌%◌, ◌<◌, ◌≡◌, refl, ap, Bool, true, false, List, [], ◌∷◌, ◌++◌, Result,
  ok, panic, arith, if◌then◌else◌, ◌==◌, length,
}
use mathlib.Core.List.{reverse}

-- `Version`
abbrev pub version : ℕ
version = 2

-- `binary.BigEndian.PutUint32`
unfoldable pub put_uint32 : ℕ → List ℕ
put_uint32 u = (u / 16777216 % 256) ∷ (u / 65536 % 256) ∷ (u / 256 % 256) ∷ (u % 256) ∷ []

-- `binary.BigEndian.Uint32`, which panics on a slice that is too short.
unfoldable pub uint32 : List ℕ → Result ℕ
uint32 (a ∷ b ∷ c ∷ d ∷ rest) = ok (a * 16777216 + b * 65536 + c * 256 + d)
uint32 _ = panic

-- `getRefsCount`
unfoldable pub get_refs_count : List ℕ → Result ℕ
unfolding uint32
get_refs_count val = uint32 val

-- `setRefsCount` over the first four bytes of a slice, and the `append` that follows it.
unfoldable pub with_refs_count : ℕ → List ℕ → List ℕ
unfolding put_uint32
with_refs_count rc val = put_uint32 rc ++ val

-- `val[4:]`, which panics on a slice that is too short.
unfoldable pub without_refs_count : List ℕ → Result (List ℕ)
without_refs_count (a ∷ b ∷ c ∷ d ∷ rest) = ok rest
without_refs_count _ = panic

-- `encodeUint32`: the argument is not used, the version is written in its place.
unfoldable pub encode_uint32 : ℕ → List ℕ
unfolding put_uint32
encode_uint32 u = put_uint32 version

-- `decodeUint32`
unfoldable pub decode_uint32 : List ℕ → Result ℕ
unfolding uint32
decode_uint32 ub = uint32 ub

-- `versionBytes`
unfoldable pub version_bytes : List ℕ
unfolding encode_uint32
version_bytes = encode_uint32 version

-- `incSlice` on the bytes from the last to the first.
unfoldable pub inc_reversed : List ℕ → List ℕ
inc_reversed [] = []
inc_reversed (b ∷ bs) = let rest = inc_reversed bs in if b == 255 then 0 ∷ rest else (b + 1) ∷ bs

unfoldable pub inc_slice : List ℕ → List ℕ
unfolding inc_reversed
inc_slice bs = reverse (inc_reversed (reverse bs))

-- What is read back in front of a value is the count that was put there, for every `uint32`.
pub get_refs_count-with_refs_count :
    (rc : ℕ) (val : List ℕ) → rc < 4294967296 → get_refs_count (with_refs_count rc val) ≡ ok rc
unfolding get_refs_count with_refs_count
get_refs_count-with_refs_count rc val h = ap ok (omega arith)

pub without_refs_count-with_refs_count :
    (rc : ℕ) (val : List ℕ) → without_refs_count (with_refs_count rc val) ≡ ok val
unfolding without_refs_count with_refs_count
without_refs_count-with_refs_count rc val = refl

pub length-with_refs_count :
    (rc : ℕ) (val : List ℕ) → length (with_refs_count rc val) ≡ suc (suc (suc (suc (length val))))
unfolding with_refs_count
length-with_refs_count rc val = refl

-- The number that a slice stands for, its last byte first.
unfoldable pub value_reversed : List ℕ → ℕ
value_reversed [] = 0
value_reversed (b ∷ bs) = b + 256 * value_reversed bs

-- A slice that holds only the greatest bytes.
unfoldable pub all_max : List ℕ → Bool
all_max [] = true
all_max (b ∷ bs) = if b == 255 then all_max bs else false

-- `incSlice`, on the bytes in reverse order, adds one to the number, unless all bytes are 255.
pub inc_reversed-value :
    (bs : List ℕ) → all_max bs ≡ false → value_reversed (inc_reversed bs) ≡ value_reversed bs + 1
unfolding inc_reversed value_reversed all_max
inc_reversed-value [] h = ground arith
inc_reversed-value (b ∷ bs) h = ground (arith, inc_reversed-value bs)
