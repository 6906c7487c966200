-- ===== src/Workload.antt =====
-- The draw of a skewed key (header.h, `zipf_random`, `get_key`, `get_reverse_key`): binary searches
-- for a random number in a cumulative distribution. The numbers are floating-point, so the test of
-- the search at an index is an input: `above mid` for `r > zipf_cdf[mid]`, `below mid` for
-- `r < cdf[mid]`.
pub mod Laws
pub mod Table
use orbit_cache_public.Prelude.{ℕ, zero, suc, ◌+◌, ◌-◌, ◌/◌, ◌%◌, Bool, ltb, if◌then◌else◌}
use orbit_cache_public.Server.Load.{dataset_size}

-- `while (low < high)`; the fuel is the number of rounds that may be made.
zipf_loop : ℕ → (ℕ → Bool) → ℕ → ℕ → ℕ
zipf_loop zero above low high = low
zipf_loop (suc fuel) above low high =
    let mid = low + (high - low) / 2 in
    let upper = zipf_loop fuel above (mid + 1) high in
    let lower = zipf_loop fuel above low mid in
    if ltb low high then if above mid then upper else lower else low

-- The interval shrinks in each round, so its size is enough fuel.
unfoldable pub zipf_search : (ℕ → Bool) → ℕ → ℕ
unfolding zipf_loop
zipf_search above size = zipf_loop size above 1 size

abbrev pub zipf_random : (ℕ → Bool) → ℕ
zipf_random above = zipf_search above dataset_size

-- `while (low <= high)`, where `high` may be -1: `past` is `high + 1`.
key_loop : ℕ → (ℕ → Bool) → ℕ → ℕ → ℕ
key_loop zero below low past = low
key_loop (suc fuel) below low past =
    let mid = (low + past - 1) / 2 in
    let lower = key_loop fuel below low mid in
    let upper = key_loop fuel below (mid + 1) past in
    if ltb low past then if below mid then lower else upper else low

unfoldable pub key_search : (ℕ → Bool) → ℕ → ℕ
unfolding key_loop
key_search below size = key_loop size below 0 size

-- `get_key` with `cdf`, `get_reverse_key` with `reverse_cdf`.
abbrev pub get_key : (ℕ → Bool) → ℕ
get_key below = key_search below dataset_size

-- `rand() % DATASET_SIZE`
unfoldable pub get_uniform_key : ℕ → ℕ
get_uniform_key draw = draw % dataset_size
