-- ===== src/Packet/Endian.antt =====
-- Network byte order. The hosts are little-endian, so `htonl` of the C library reverses four bytes.
use orbit_cache_public.Prelude.{
  ℕ, ◌+◌, ◌*◌, ◌/◌, ◌%◌, ◌^◌, ◌<◌, ◌≡◌, sym, ap, ◌∙◌, arith, u64, ◌>>>◌,
}

-- The argument is converted to `uint32_t`.
unfoldable pub htonl : ℕ → ℕ
htonl x =
    (x % 256) * 2 ^ 24 + (x / 2 ^ 8 % 256) * 2 ^ 16 + (x / 2 ^ 16 % 256) * 2 ^ 8 + x / 2 ^ 24 % 256

unfoldable pub ntohl : ℕ → ℕ
unfolding htonl
ntohl x = htonl x

unfoldable pub htons : ℕ → ℕ
htons x = (x % 256) * 2 ^ 8 + x / 2 ^ 8 % 256

unfoldable pub htonll : ℕ → ℕ
htonll x = u64 (u64 (htonl x * 2 ^ 32) + htonl (x >>> 32))

unfoldable pub ntohll : ℕ → ℕ
ntohll x = u64 (u64 (ntohl x * 2 ^ 32) + ntohl (x >>> 32))

pub htonl-lt : (x : ℕ) → htonl x < 2 ^ 32
unfolding htonl
htonl-lt x = omega arith

pub ntohl-htonl : (x : ℕ) → ntohl (htonl x) ≡ x % 2 ^ 32
unfolding ntohl
ntohl-htonl x = omega arith

ntohl-mod : (x : ℕ) → ntohl (x % 2 ^ 32) ≡ ntohl x
unfolding ntohl
ntohl-mod x = omega arith

pub htonll-lt : (x : ℕ) → htonll x < 2 ^ 64
unfolding htonll
htonll-lt x = omega arith

htonll-high : (x : ℕ) → htonll x / 2 ^ 32 ≡ htonl x
unfolding htonll
htonll-high x = omega (arith, htonl-lt x, htonl-lt (x / 2 ^ 32))

htonll-low : (x : ℕ) → htonll x % 2 ^ 32 ≡ htonl (x / 2 ^ 32)
unfolding htonll
htonll-low x = omega (arith, htonl-lt x, htonl-lt (x / 2 ^ 32))

ntohl-htonll : (x : ℕ) → x < 2 ^ 64 → ntohl (htonll x) ≡ x / 2 ^ 32
ntohl-htonll x h =
    sym (ntohl-mod (htonll x)) ∙ ap ntohl (htonll-low x) ∙ ntohl-htonl (x / 2 ^ 32) ∙ omega arith

-- `ntohll` undoes `htonll` on every 64-bit word.
pub ntohll-htonll : (x : ℕ) → x < 2 ^ 64 → ntohll (htonll x) ≡ x
unfolding ntohll
ntohll-htonll x h = rw (ntohl-htonll x h, htonll-high x, ntohl-htonl x) (omega arith)
