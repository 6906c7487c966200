-- ===== src/Prelude/Bits.antt =====
-- Laws of exclusive or on words at variables, from the recursion on the lowest binary digit.
use Prim.Native.Nat.{
  ℕ, zero, suc, ◌+◌, ◌*◌, ◌/◌, ◌%◌, ◌^◌, ◌≤◌, ◌<◌, bit_xor, digits, differ, bit_xor-bitwise,
}
use mathlib.Core.Path.{◌≡◌, refl, sym, ◌∙◌, ap}
use native.Mathlib.Omega.{arith}
use native.Mathlib.Nat.{pow-suc, div-one, div-div-eq-div-mul}

abbrev xor_digits : ℕ → ℕ → ℕ → ℕ
xor_digits n a b = digits (λ b. b) differ n a b

-- Two amounts of fuel that are both enough give the same digits.
enough : (x y k l : ℕ) → x ≤ l → x ≤ k → xor_digits l x y ≡ xor_digits k x y
enough (suc x) y (suc k) (suc l) h h' =
    let rest = enough (suc x / 2) (y / 2) k l (omega arith) (omega arith) in omega (arith, rest)
enough (suc x) y zero l h h' = absurd (omega (arith, h'))
enough (suc x) y (suc k) zero h h' = absurd (omega (arith, h))
enough zero y zero zero h h' = refl
enough zero y (suc k) zero h h' = refl
enough zero y zero (suc l) h h' = refl
enough zero y (suc k) (suc l) h h' = refl

differ_bits : (x y : ℕ) → x < 2 → y < 2 → differ x y ≡ (x + y) % 2
differ_bits zero y p q = omega arith
differ_bits (suc zero) zero p q = omega arith
differ_bits (suc zero) (suc zero) p q = omega arith
differ_bits (suc zero) (suc (suc y)) p q = absurd (omega arith)
differ_bits (suc (suc x)) y p q = absurd (omega arith)

pub zero-xor : (b : ℕ) → bit_xor 0 b ≡ b
zero-xor b = bit_xor-bitwise 0 b

-- The lowest digit of an exclusive or, and the digits above it.
pub xor_step : (a b : ℕ) → bit_xor a b ≡ bit_xor (a / 2) (b / 2) * 2 + (a % 2 + b % 2) % 2
xor_step zero b = omega (arith, zero-xor b, zero-xor (b / 2))
xor_step (suc a) b =
    let half = enough (suc a / 2) (b / 2) (suc a / 2) a (omega arith) (omega arith) in
    let low = differ_bits (suc a % 2) (b % 2) (omega arith) (omega arith) in
    omega (arith, half, low, bit_xor-bitwise (suc a / 2) (b / 2), bit_xor-bitwise (suc a) b)

xor_half : (a b : ℕ) → bit_xor a b / 2 ≡ bit_xor (a / 2) (b / 2)
xor_half a b = omega (arith, xor_step a b)

xor_low : (a b : ℕ) → bit_xor a b % 2 ≡ (a % 2 + b % 2) % 2
xor_low a b = omega (arith, xor_step a b)

-- A word that is mixed in twice goes away.
xor_cancel_below : (n a b : ℕ) → a ≤ n → bit_xor a (bit_xor a b) ≡ b
xor_cancel_below n zero b h = omega (arith, zero-xor (bit_xor 0 b), zero-xor b)
xor_cancel_below zero (suc a) b h = absurd (omega arith)
xor_cancel_below (suc n) (suc a) b h = omega (
  arith,
  xor_step (suc a) (bit_xor (suc a) b),
  ap (bit_xor (suc a / 2)) (xor_half (suc a) b),
  xor_low (suc a) b,
  xor_cancel_below n (suc a / 2) (b / 2) (omega arith),
)

pub xor_cancel : (a b : ℕ) → bit_xor a (bit_xor a b) ≡ b
xor_cancel a b = xor_cancel_below a a b (omega arith)

shift-suc : (k x : ℕ) → x / 2 ^ suc k ≡ x / 2 / 2 ^ k
shift-suc k x =
    ap (λ (d : ℕ). x / d) (omega (arith, pow-suc 2 k)) ∙ sym (div-div-eq-div-mul x 2 (2 ^ k))

-- A shift to the right goes through.
pub xor-shift : (k a b : ℕ) → bit_xor a b / 2 ^ k ≡ bit_xor (a / 2 ^ k) (b / 2 ^ k)
xor-shift zero a b = simp div-one
xor-shift (suc k) a b =
    rw (shift-suc k (bit_xor a b), shift-suc k a, shift-suc k b, xor_half)
      (xor-shift k (a / 2) (b / 2))

-- Words of `k` bits give a word of `k` bits.
pub xor-lt : (k a b : ℕ) → a < 2 ^ k → b < 2 ^ k → bit_xor a b < 2 ^ k
xor-lt zero zero b p q = omega (arith, zero-xor b)
xor-lt zero (suc a) b p q = absurd (omega arith)
xor-lt (suc k) a b p q = omega (
  arith,
  pow-suc 2 k,
  xor_step a b,
  xor-lt k (a / 2) (b / 2) (omega (arith, pow-suc 2 k)) (omega (arith, pow-suc 2 k)),
)

-- `(x >> k) ^ x` loses nothing of a word of at most `2 k` bits: the same step undoes it.
pub xor_shift_undo :
    (k x : ℕ)
    → x / 2 ^ k / 2 ^ k ≡ 0
    → bit_xor (bit_xor (x / 2 ^ k) x / 2 ^ k) (bit_xor (x / 2 ^ k) x) ≡ x
xor_shift_undo k x h =
    rw (xor-shift k (x / 2 ^ k) x, h, zero-xor (x / 2 ^ k)) (xor_cancel (x / 2 ^ k) x)
