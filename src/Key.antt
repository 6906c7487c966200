-- ===== src/Key.antt =====
-- The keys of the data set (header.h, `CHARSET` to `tostring_key`).
pub mod Laws
use Prim.Native.String.{String}
use Prim.Native.Char.{code}
use orbit_cache_public.Prelude.{
  ℕ, zero, suc, ◌+◌, ◌-◌, ◌*◌, ◌/◌, ◌%◌, ◌^◌, List, [], ◌∷◌, u64, set, get_or, replicate,
}
use orbit_cache_public.Text.{until_nul}

abbrev pub key_size : ℕ
key_size = 16

abbrev pub charset_size : ℕ
charset_size = 62

-- The code points of an ASCII text.
abbrev pub codes : String → List ℕ
codes String.[] = []
codes (String.◌∷◌ c s) = code c ∷ codes s

abbrev pub charset : List ℕ
charset = codes "ABCDEFGHIJKLMNOPQRSTUVWXYZabcdefghijklmnopqrstuvwxyz0123456789"

-- One round is `((transformed << 3) - transformed + 7) & 0xFFFFFFFFFFFFFFFF`.
pub transform_loop : ℕ → ℕ → ℕ
transform_loop zero transformed = transformed
transform_loop (suc rounds) transformed =
    transform_loop rounds (u64 (u64 (transformed * 8) + 2 ^ 64 - transformed + 7))

unfoldable pub complex_transform : ℕ → ℕ
unfolding transform_loop
complex_transform number = transform_loop 5 number

-- The loop at `i - 1`, down to 0: the last character is the lowest digit.
pub fill_loop : ℕ → ℕ → List ℕ → List ℕ
fill_loop zero transformed_number key = key
fill_loop (suc i) transformed_number key =
    fill_loop i (transformed_number / charset_size)
      (set key i (get_or charset (transformed_number % charset_size) 0))

-- `key` is the array that the characters are written to.
unfoldable pub tostring_key : ℕ → List ℕ → List ℕ
unfolding complex_transform fill_loop
tostring_key number key =
    fill_loop (key_size - 1) (complex_transform number) (set key (key_size - 1) 0)
