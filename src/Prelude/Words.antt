-- ===== src/Prelude/Words.antt =====
-- Unsigned machine words: a value is a native number, and each operation that may wrap is cut by
-- `u8`, `u16`, `u32` or `u64`. Multi-byte words in memory are little-endian.
use Prim.Native.Nat.{ℕ, zero, suc, ◌+◌, ◌*◌, ◌/◌, ◌%◌, ◌^◌, ◌<◌}
use mathlib.Core.Path.{◌≡◌}
use mathlib.Core.List.{List, [], ◌∷◌}
use native.Mathlib.Omega.{arith}

abbrev pub u8 : ℕ → ℕ
u8 n = n % 2 ^ 8

abbrev pub u16 : ℕ → ℕ
u16 n = n % 2 ^ 16

abbrev pub u32 : ℕ → ℕ
u32 n = n % 2 ^ 32

abbrev pub u64 : ℕ → ℕ
u64 n = n % 2 ^ 64

-- x >> k
infixl 75 ◌>>>◌
abbrev pub ◌>>>◌ : ℕ → ℕ → ℕ
x >>> k = x / 2 ^ k

-- The `k` bytes of a word, the lowest first.
abbrev pub to_bytes : ℕ → ℕ → List ℕ
to_bytes zero x = []
to_bytes (suc k) x = x % 256 ∷ to_bytes k (x / 256)

abbrev pub of_bytes : List ℕ → ℕ
of_bytes [] = 0
of_bytes (b ∷ bs) = b + 256 * of_bytes bs

pub of_bytes-to_bytes_8 : (x : ℕ) → x < 2 ^ 8 → of_bytes (to_bytes 1 x) ≡ x
of_bytes-to_bytes_8 x h = omega arith

pub of_bytes-to_bytes_32 : (x : ℕ) → x < 2 ^ 32 → of_bytes (to_bytes 4 x) ≡ x
of_bytes-to_bytes_32 x h = omega arith

pub of_bytes-to_bytes_64 : (x : ℕ) → x < 2 ^ 64 → of_bytes (to_bytes 8 x) ≡ x
of_bytes-to_bytes_64 x h = omega arith
