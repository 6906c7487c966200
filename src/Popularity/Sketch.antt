-- ===== src/Popularity/Sketch.antt =====
-- The count-min sketch (header.h, `HASH_SALTS` to `getPopularity`). An `int` is its bit pattern
-- where it is hashed, with the wrap-around of the machine; the counters are plain numbers, which
-- stand for the `int` up to `INT_MAX`.
pub mod Laws
use orbit_cache_public.Prelude.{
  ℕ, zero, suc, ◌+◌, ◌-◌, ◌*◌, ◌%◌, ◌^◌, List, [], ◌∷◌, Bool, ◌&&◌, ◌==◌, ltb, u32, if◌then◌else◌,
  get_or,
}
use orbit_cache_public.Hash.{extend_char, murmur_hash3}

abbrev pub hash_functions : ℕ
hash_functions = 5

abbrev pub sketch_width : ℕ
sketch_width = 65536

abbrev pub int_max : ℕ
int_max = 2147483647

abbrev pub hash_salts : List ℕ
hash_salts = 0xAAAA ∷ 0xBBBB ∷ 0xCCCC ∷ 0xDDDD ∷ 0xEEEE ∷ []

abbrev pub CountMinSketch : Type 0
CountMinSketch = ℕ → ℕ → ℕ

abbrev pub empty_sketch : CountMinSketch
empty_sketch i idx = 0

pub hash2_loop : ℕ → ℕ → List ℕ → ℕ
hash2_loop salt hash [] = hash
hash2_loop salt hash (c ∷ key) =
    hash2_loop salt (murmur_hash3 (u32 (hash * 31 + extend_char 32 c)) salt) key

-- `abs(hash % SKETCH_WIDTH)`, for the `int` with this bit pattern.
abbrev pub abs_mod : ℕ → ℕ
abs_mod hash = if ltb hash (2 ^ 31) then hash % sketch_width else (2 ^ 32 - hash) % sketch_width

unfoldable pub hash2 : ℕ → List ℕ → ℕ → ℕ
unfolding hash2_loop
hash2 function_index key salt = abs_mod (hash2_loop salt 0 key)

-- `count++` of an `int`, for a count below `INT_MAX`, where it does not overflow.
abbrev pub increment : CountMinSketch → ℕ → ℕ → CountMinSketch
increment cms i idx row column =
    if row == i && column == idx then cms row column + 1 else cms row column

-- The loop at row `i`, with `left` rows to go.
update_loop : ℕ → ℕ → CountMinSketch → List ℕ → CountMinSketch
update_loop zero i cms key = cms
update_loop (suc left) i cms key =
    update_loop left (i + 1) (increment cms i (hash2 i key (get_or hash_salts i 0))) key

unfoldable pub update_cms : CountMinSketch → List ℕ → CountMinSketch
unfolding update_loop
update_cms cms key = update_loop hash_functions 0 cms key

unfoldable pub popularity_loop : ℕ → ℕ → ℕ → CountMinSketch → List ℕ → ℕ
popularity_loop zero i min_freq cms key = min_freq
popularity_loop (suc left) i min_freq cms key =
    let count = cms i (hash2 i key (get_or hash_salts i 0)) in
    popularity_loop left (i + 1) (if ltb count min_freq then count else min_freq) cms key

unfoldable pub get_popularity : CountMinSketch → List ℕ → ℕ
get_popularity cms key = popularity_loop hash_functions 0 int_max cms key
