-- ===== src/Hash/Laws.antt =====
-- Ranges of the hashes of header.h, and what the finalizers keep and lose.
use orbit_cache_public.Prelude.{
  ℕ, ◌+◌, ◌*◌, ◌/◌, ◌%◌, ◌^◌, ◌<◌, bit_xor, ◌≡◌, ◌↔◌, ◌∙◌, sym, ap, List, [], ◌∷◌, arith, u16, u64,
  ◌>>>◌, All,
}
use orbit_cache_public.Prelude.Bits.{xor-lt, xor_shift_undo}
use native.Mathlib.Nat.{div-le_self, mod-eq_of_lt}
use orbit_cache_public.Hash.{
  extend_char, fnv1_16_loop, fnv1_16_str, mix64, hash64_str2_loop, hash64_str2, hash64_str_loop,
  hash64_str, hash64,
}

abbrev pub IsBytes : List ℕ → Type 0
IsBytes = All (λ c. c < 256)

-- Backwards through `mix64 32 m`, for `m'` an inverse of `m`.
abbrev pub unmix64 : ℕ → ℕ → ℕ
unmix64 m' v = let w = u64 (v * m') in bit_xor (w >>> 32) w

xor_shift-lt : (k v : ℕ) → v < 2 ^ 64 → bit_xor (v / 2 ^ k) v < 2 ^ 64
xor_shift-lt k v h = xor-lt 64 (v / 2 ^ k) v (omega (arith, div-le_self v (2 ^ k))) h

shift_twice : (v : ℕ) → v < 2 ^ 64 → v / 2 ^ 32 / 2 ^ 32 ≡ 0
shift_twice v h = omega arith

module _ (m m' : ℕ) (inverse : (x : ℕ) → x < 2 ^ 64 → u64 (u64 (x * m) * m') ≡ x) where
  unmix64-mix64 : (v : ℕ) → v < 2 ^ 64 → unmix64 m' (mix64 32 m v) ≡ v
  unmix64-mix64 v h =
      rw (inverse (bit_xor (v / 2 ^ 32) v) (xor_shift-lt 32 v h))
        (xor_shift_undo 32 v (shift_twice v h))

  abbrev finalize : ℕ → ℕ
  finalize v = let w = mix64 32 m (mix64 32 m v) in bit_xor (w >>> 32) w

  abbrev unfinalize : ℕ → ℕ
  unfinalize v = unmix64 m' (unmix64 m' (bit_xor (v >>> 32) v))

  unfinalize-finalize : (v : ℕ) → v < 2 ^ 64 → unfinalize (finalize v) ≡ v
  unfinalize-finalize v h =
      rw
        (
          xor_shift_undo 32 (mix64 32 m (mix64 32 m v)) (shift_twice _ (omega arith)),
          unmix64-mix64 (mix64 32 m v) (omega arith),
        )
        (unmix64-mix64 v h)

hash64_inverse : (x : ℕ) → x < 2 ^ 64 → u64 (u64 (x * 0x1a293fe761c8f5b3) * 0x13ed8d2fc0f2c17b) ≡ x
hash64_inverse x h = omega arith

hash64_str_inverse :
    (x : ℕ) → x < 2 ^ 64 → u64 (u64 (x * 0xc4ceb9fe1a85ec53) * 0x9cb4b2f8129337db) ≡ x
hash64_str_inverse x h = omega arith

-- Distinct 64-bit words have distinct images under `hash64`.
pub hash64-injective : (a b : ℕ) → a < 2 ^ 64 → b < 2 ^ 64 → hash64 a ≡ hash64 b → a ≡ b
unfolding hash64
hash64-injective a b ha hb e =
    sym (unfinalize-finalize _ _ hash64_inverse a ha)
    ∙ ap (unfinalize _ _ hash64_inverse) e
    ∙ unfinalize-finalize _ _ hash64_inverse b hb

pub hash64_str_loop-lt : (v : ℕ) (s : List ℕ) → v < 2 ^ 64 → hash64_str_loop v s < 2 ^ 64
unfolding hash64_str_loop
hash64_str_loop-lt v [] h = h
hash64_str_loop-lt v (c ∷ s) h = hash64_str_loop-lt (u64 (v * 31 + c)) s (omega arith)

pub hash64_str-lt : (s : List ℕ) → hash64_str s < 2 ^ 64
unfolding hash64_str
hash64_str-lt s = omega arith

pub hash64_str2-lt : (s : List ℕ) → hash64_str2 s < 2 ^ 64
unfolding hash64_str2
hash64_str2-lt s = omega arith

-- The accumulator of `hash64_str` without the masks: a polynomial in 31.
abbrev pub poly : ℕ → ℕ → List ℕ → ℕ
poly b v [] = v
poly b v (c ∷ s) = poly b (v * b + c) s

poly-mod :
    (v w : ℕ) (s : List ℕ) → v % 2 ^ 64 ≡ w % 2 ^ 64 → poly 31 v s % 2 ^ 64 ≡ poly 31 w s % 2 ^ 64
poly-mod v w [] h = h
poly-mod v w (c ∷ s) h = poly-mod (v * 31 + c) (w * 31 + c) s (omega arith)

pub hash64_str_loop-eq-poly :
    (v : ℕ) (s : List ℕ) → v < 2 ^ 64 → hash64_str_loop v s ≡ poly 31 v s % 2 ^ 64
unfolding hash64_str_loop
hash64_str_loop-eq-poly v [] h = omega arith
hash64_str_loop-eq-poly v (c ∷ s) h =
    hash64_str_loop-eq-poly (u64 (v * 31 + c)) s (omega arith)
    ∙ poly-mod (u64 (v * 31 + c)) (v * 31 + c) s (omega arith)

hash64_str-eq-finalize :
    (s : List ℕ) → hash64_str s ≡ finalize _ _ hash64_str_inverse (hash64_str_loop 0 s)
unfolding hash64_str
hash64_str-eq-finalize s = mod-eq_of_lt (xor_shift-lt 32 _ (omega arith))

-- Two strings collide under `hash64_str` exactly when their polynomials in 31 agree modulo 2 ^ 64.
pub hash64_str-collision :
    (s t : List ℕ) → (hash64_str s ≡ hash64_str t) ↔ (poly 31 0 s % 2 ^ 64 ≡ poly 31 0 t % 2 ^ 64)
hash64_str-collision s t = (
  λ e. sym (value s) ∙ ap (unfinalize _ _ hash64_str_inverse) e ∙ value t,
  λ e.
      hash64_str-eq-finalize s
      ∙ ap (finalize _ _ hash64_str_inverse) (loop s ∙ e ∙ sym (loop t))
      ∙ sym (hash64_str-eq-finalize t),
)
  where
    loop : (r : List ℕ) → hash64_str_loop 0 r ≡ poly 31 0 r % 2 ^ 64
    loop r = hash64_str_loop-eq-poly 0 r (omega arith)

    value : (r : List ℕ) → unfinalize _ _ hash64_str_inverse (hash64_str r) ≡ poly 31 0 r % 2 ^ 64
    value r =
        ap (unfinalize _ _ hash64_str_inverse) (hash64_str-eq-finalize r)
        ∙ unfinalize-finalize _ _ hash64_str_inverse (hash64_str_loop 0 r)
            (hash64_str_loop-lt 0 r (omega arith))
        ∙ loop r

-- The last multiplier of `hash64_str2` is a multiple of 16, so every result satisfies an equation
-- on its digits: mixed with itself shifted by 35, it ends in four zero digits.
pub hash64_str2-low_digits : (s : List ℕ) → bit_xor (hash64_str2 s >>> 35) (hash64_str2 s) % 16 ≡ 0
unfolding hash64_str2
hash64_str2-low_digits s =
    let v = mix64 30 0x123456789ABCDEF1 (hash64_str2_loop 0xABCDEF s) in
    let w = mix64 33 0xFEDCBA9876543210 v in
    let small : bit_xor (w >>> 35) w < 2 ^ 64 = xor_shift-lt 35 w (omega arith) in
    rw (mod-eq_of_lt small, xor_shift_undo 35 w (omega arith)) (omega arith)

extend_char-lt : (c : ℕ) → c < 256 → extend_char 16 c < 2 ^ 16
extend_char-lt c h = ground arith

fnv1_16_loop-lt : (h : ℕ) (s : List ℕ) → h < 2 ^ 16 → IsBytes s → fnv1_16_loop h s < 2 ^ 16
unfolding fnv1_16_loop
fnv1_16_loop-lt h [] p q = p
fnv1_16_loop-lt h (c ∷ s) p q =
    fnv1_16_loop-lt (bit_xor (u16 (h * 0x0101)) (extend_char 16 c)) s
      (xor-lt 16 (u16 (h * 0x0101)) (extend_char 16 c) (omega arith) (extend_char-lt c q.0)) q.1

-- `fnv1_16_str` is a `uint16_t`.
pub fnv1_16_str-lt : (s : List ℕ) → IsBytes s → fnv1_16_str s < 2 ^ 16
unfolding fnv1_16_str
fnv1_16_str-lt s h = fnv1_16_loop-lt 0x811c s (omega arith) h
