-- ===== src/Text/Print/Laws.antt =====
-- The printed digits of a number: how many there are, and that they read back as the number.
use orbit_cache_public.Prelude.{
  ℕ, zero, suc, ◌+◌, ◌*◌, ◌/◌, ◌%◌, ◌^◌, ◌≤◌, ◌<◌, ◌≡◌, refl, inl, inr, Bool, true, Bool-cases,
  List, [], ◌∷◌, ◌++◌, ltb, length, length-append, append_assoc, ap, ◌∙◌, arith,
}
use orbit_cache_public.Text.Number.{is_digit, digits_from}
use orbit_cache_public.Text.Print.{decimal_of}

power_positive : (k : ℕ) → 1 ≤ 10 ^ k
power_positive zero = omega arith
power_positive (suc k) = omega (arith, power_positive k)

-- A number below a power of ten has at most so many digits.
pub length-decimal_of-le : (fuel k n : ℕ) → n < 10 ^ suc k → length (decimal_of fuel n) ≤ suc k
unfolding decimal_of
length-decimal_of-le zero k n lt = omega arith
length-decimal_of-le (suc fuel) zero n lt =
    let small : ltb n 10 ≡ true = ground arith in rw small (omega arith)
length-decimal_of-le (suc fuel) (suc k) n lt = elim (Bool-cases (ltb n 10)) [
  | inl small ↦ rw small (omega arith)
  | inr large ↦
      let higher = length-decimal_of-le fuel k (n / 10) (omega (arith, lt)) in
      let last = length-append (decimal_of fuel (n / 10)) ((b'0' + n % 10) ∷ []) in
      rw large (omega (arith, higher, last))
]

pub length-decimal_of-pos : (fuel n : ℕ) → 1 ≤ length (decimal_of (suc fuel) n)
unfolding decimal_of
length-decimal_of-pos fuel n = elim (Bool-cases (ltb n 10)) [
  | inl small ↦ rw small (omega arith)
  | inr large ↦
      let last = length-append (decimal_of fuel (n / 10)) ((b'0' + n % 10) ∷ []) in
      rw large (omega (arith, last))
]

-- A number that is not below it has more.
pub length-decimal_of-ge :
    (fuel k n : ℕ) → k < fuel → 10 ^ k ≤ n → suc k ≤ length (decimal_of fuel n)
unfolding decimal_of
length-decimal_of-ge zero k n lt ge = absurd (omega (arith, lt))
length-decimal_of-ge (suc fuel) zero n lt ge = length-decimal_of-pos fuel n
length-decimal_of-ge (suc fuel) (suc k) n lt ge =
    let positive = power_positive k in
    let large : ltb n 10 ≡ Bool.false = ground (arith, ge, positive) in
    let higher = length-decimal_of-ge fuel k (n / 10) (omega (arith, lt)) (omega (arith, ge)) in
    let last = length-append (decimal_of fuel (n / 10)) ((b'0' + n % 10) ∷ []) in
    rw large (omega (arith, higher, last))

digits_from-digit :
    (a d : ℕ) (s : List ℕ) → d < 10 → digits_from a ((b'0' + d) ∷ s) ≡ digits_from (a * 10 + d) s
unfolding digits_from is_digit
digits_from-digit a d s lt = ground arith

-- Where there is room for the digits, they read back as the number, whatever follows.
digits_from-decimal_of :
    (fuel n : ℕ) (s : List ℕ)
    → n < 10 ^ fuel
    → digits_from 0 (decimal_of fuel n ++ s) ≡ digits_from n s
unfolding decimal_of
digits_from-decimal_of zero n s lt = let none : n ≡ 0 = omega (arith, lt) in rw none refl
digits_from-decimal_of (suc fuel) n s lt = elim (Bool-cases (ltb n 10)) [
  | inl small ↦ rw small (
      digits_from-digit 0 n s (ground (arith, small))
      ∙ ap (λ m. digits_from m s) (let start : 0 * 10 + n ≡ n = omega arith in start))
  | inr large ↦
      let split : n / 10 * 10 + n % 10 ≡ n = omega arith in
      let digit = (b'0' + n % 10) ∷ [] in
      rw large (
        ap (digits_from 0) (append_assoc (decimal_of fuel (n / 10)) digit s)
        ∙ digits_from-decimal_of fuel (n / 10) (digit ++ s) (omega (arith, lt))
        ∙ digits_from-digit (n / 10) (n % 10) s (omega arith)
        ∙ ap (λ m. digits_from m s) split)
]
