-- ===== src/Hash.antt =====
-- The hash functions of header.h. A `const char *` argument is the string that it points to.
pub mod Laws
use orbit_cache_public.Prelude.{
  ℕ, zero, suc, ◌+◌, ◌-◌, ◌*◌, ◌%◌, ◌^◌, ◌<◌, bit_xor, List, [], ◌∷◌, u16, u32, u64, ◌>>>◌, ltb,
  if◌then◌else◌,
}

-- A `char` is signed here, so its conversion to a `w`-bit word copies the sign bit.
abbrev pub extend_char : ℕ → ℕ → ℕ
extend_char w c = if ltb c 128 then c else c + 2 ^ w - 256

abbrev pub fnv_16_prime : ℕ
fnv_16_prime = 0x0101

abbrev pub fnv_16_init : ℕ
fnv_16_init = 0x811c

pub fnv1_16_loop : ℕ → List ℕ → ℕ
fnv1_16_loop hash [] = hash
fnv1_16_loop hash (c ∷ value) =
    fnv1_16_loop (bit_xor (u16 (hash * fnv_16_prime)) (extend_char 16 c)) value

unfoldable pub fnv1_16_str : List ℕ → ℕ
unfolding fnv1_16_loop
fnv1_16_str value = fnv1_16_loop fnv_16_init value

pub hash64_str2_loop : ℕ → List ℕ → ℕ
hash64_str2_loop value [] = value
hash64_str2_loop value (c ∷ str) = hash64_str2_loop (u64 (value * 33 + c + 0x45)) str

-- `((value >> k) ^ value) * m`, the step that the finalizers share.
abbrev pub mix64 : ℕ → ℕ → ℕ → ℕ
mix64 k m value = u64 (bit_xor (value >>> k) value * m)

unfoldable pub hash64_str2 : List ℕ → ℕ
unfolding hash64_str2_loop
hash64_str2 str =
    let value = hash64_str2_loop 0xABCDEF str in
    let value' = mix64 30 0x123456789ABCDEF1 value in
    let value'' = mix64 33 0xFEDCBA9876543210 value' in u64 (bit_xor (value'' >>> 35) value'')

pub hash64_str_loop : ℕ → List ℕ → ℕ
hash64_str_loop value [] = value
hash64_str_loop value (c ∷ str) = hash64_str_loop (u64 (value * 31 + c)) str

unfoldable pub hash64_str : List ℕ → ℕ
unfolding hash64_str_loop
hash64_str str =
    let value = hash64_str_loop 0 str in
    let value' = mix64 32 0xc4ceb9fe1a85ec53 value in
    let value'' = mix64 32 0xc4ceb9fe1a85ec53 value' in u64 (bit_xor (value'' >>> 32) value'')

unfoldable pub hash64 : ℕ → ℕ
hash64 value =
    let value' = mix64 32 0x1a293fe761c8f5b3 value in
    let value'' = mix64 32 0x1a293fe761c8f5b3 value' in bit_xor (value'' >>> 32) value''

-- `seed` is a parameter that the body does not read.
unfoldable pub murmur_hash3 : ℕ → ℕ → ℕ
murmur_hash3 key seed =
    let k1 = bit_xor key (key >>> 16) in
    let k2 = u32 (k1 * 0x85ebca6b) in
    let k3 = bit_xor k2 (k2 >>> 13) in let k4 = u32 (k3 * 0xc2b2ae35) in bit_xor k4 (k4 >>> 16)
