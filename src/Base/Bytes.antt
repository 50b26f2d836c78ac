-- ===== src/Base/Bytes.antt =====
-- Fixed-width integers as byte strings: `to_be_bytes`, `from_be_bytes`, `to_le_bytes`,
-- `from_le_bytes` of Rust's unsigned integers. A byte string is a list of numbers.
use Prim.Native.Nat.{ℕ, zero, suc, ◌+◌, ◌*◌, ◌/◌, ◌%◌, ◌^◌, ◌<◌}
use mathlib.Core.Path.{◌≡◌, refl, ap}
use mathlib.Core.List.{List, [], ◌∷◌, ◌++◌}
use native.Mathlib.Nat.{pow-suc}
use native.Mathlib.Omega.{arith}
use atlas_kv.Base.Lists.{length, take}

abbrev pub IsByte : ℕ → Type 0
IsByte b = b < 256

abbrev pub IsU32 : ℕ → Type 0
IsU32 n = n < 2 ^ 32

abbrev pub IsU64 : ℕ → Type 0
IsU64 n = n < 2 ^ 64

-- The `width` low bytes of `n`, the lowest first.
unfoldable pub to_le : ℕ → ℕ → List ℕ
to_le zero n = []
to_le (suc width) n = n % 256 ∷ to_le width (n / 256)

unfoldable pub from_le : List ℕ → ℕ
from_le [] = 0
from_le (b ∷ bs) = b + 256 * from_le bs

pub length-to_le : (width n : ℕ) → length (to_le width n) ≡ width
unfolding to_le
length-to_le zero n = refl
length-to_le (suc width) n = ap suc (length-to_le width (n / 256))

pub from_le-to_le : (width n : ℕ) → n < 256 ^ width → from_le (to_le width n) ≡ n
unfolding to_le from_le
from_le-to_le zero n h = omega arith
from_le-to_le (suc width) n h =
    omega (arith, from_le-to_le width (n / 256) (omega (arith, pow-suc 256 width)))

-- The four bytes of `n as u32`, the highest first.
unfoldable pub to_be32 : ℕ → List ℕ
to_be32 n = n / 16777216 % 256 ∷ n / 65536 % 256 ∷ n / 256 % 256 ∷ n % 256 ∷ []

unfoldable pub from_be32 : List ℕ → ℕ
from_be32 (a ∷ b ∷ c ∷ d ∷ rest) = a * 16777216 + b * 65536 + c * 256 + d
from_be32 _ = 0

-- A length read back from the front of a message.
pub from_be32-take : (n : ℕ) (rest : List ℕ) → IsU32 n → from_be32 (take 4 (to_be32 n ++ rest)) ≡ n
unfolding to_be32 from_be32
from_be32-take n rest h = omega arith

pub length-to_be32-append : (n : ℕ) (rest : List ℕ) → length (to_be32 n ++ rest) ≡ 4 + length rest
unfolding to_be32
length-to_be32-append n rest = omega arith
