-- ===== src/Workload/Table.antt =====
-- The tables of the key distributions (header.h, `precalculate_zipf_cdf`, `initialize_pmf`,
-- `initialize_reverse_pmf`), of any number of keys, as functions of the index.
pub mod Laws
pub mod Reverse
use orbit_cache_public.Prelude.{
  ℕ, zero, suc, ◌+◌, ◌-◌, ◌==◌, Bool, if◌then◌else◌, Option, none, some,
}
use mathlib.Core.Option
use orbit_cache_public.Prelude.Int.{ℤ, pos, eq_ℤ}
use orbit_cache_public.Double.{Double}
use orbit_cache_public.Workload.{key_search, zipf_search}

-- `NUM_HOTKEYS`
abbrev pub num_hotkeys : ℕ
num_hotkeys = 128

module _ (dbl : Double) where
  -- `1.0 / pow(i, s)`
  abbrev pub weight : dbl.Carrier → ℕ → dbl.Carrier
  weight s i = dbl.over (dbl.of_ℕ 1) (dbl.pow (dbl.of_ℕ i) s)

  -- The sum of the weights of 1 to n, in this order.
  abbrev pub sum_weights : dbl.Carrier → ℕ → dbl.Carrier
  sum_weights s zero = dbl.of_ℕ 0
  sum_weights s (suc n) = dbl.plus (sum_weights s n) (weight s (suc n))

  -- The sums of an array, each with the one before it.
  unfoldable pub running : (ℕ → dbl.Carrier) → ℕ → dbl.Carrier
  running p zero = p 0
  running p (suc i) = dbl.plus (running p i) (p (suc i))

  pub record Table : Type 0 where
    pub pmf : ℕ → dbl.Carrier
    pub cdf : ℕ → dbl.Carrier

  -- The probabilities of the keys from 0 to n - 1.
  unfoldable pub zipf_pmf : ℕ → dbl.Carrier → ℕ → dbl.Carrier
  zipf_pmf n s i = dbl.over (weight s (i + 1)) (sum_weights s n)

  unfoldable pub initialize_pmf : ℕ → dbl.Carrier → Table
  initialize_pmf n s = record { pmf = zipf_pmf n s; cdf = running (zipf_pmf n s) }

  -- `cdf[i] / sum`, for an index from 1 on.
  unfoldable pub precalculate_zipf_cdf : ℕ → dbl.Carrier → ℕ → dbl.Carrier
  precalculate_zipf_cdf n s i = dbl.over (sum_weights s i) (sum_weights s n)

  -- An array with two elements exchanged.
  abbrev pub exchange : ℕ → ℕ → (ℕ → dbl.Carrier) → ℕ → dbl.Carrier
  exchange a b p i = if i == b then p a else if i == a then p b else p i

  -- The loop that exchanges the hot keys with the coldest, from the index `i` on.
  unfoldable pub exchange_loop : ℕ → ℕ → ℕ → (ℕ → dbl.Carrier) → ℕ → dbl.Carrier
  exchange_loop zero n i p = p
  exchange_loop (suc left) n i p = exchange_loop left n (i + 1) (exchange i (n - num_hotkeys + i) p)

  unfoldable pub initialize_reverse_pmf : ℕ → dbl.Carrier → Table
  initialize_reverse_pmf n s =
      let reverse_pmf = exchange_loop num_hotkeys n 0 (zipf_pmf n s) in
      record { pmf = reverse_pmf; cdf = running reverse_pmf }

  -- `get_key` and `get_reverse_key` for the random number `r`.
  unfoldable pub draw_from : ℕ → Table → dbl.Carrier → ℕ
  draw_from n table r = key_search (λ i. dbl.lt r (table.cdf i)) n

  -- `zipf_random` for the random number `r`.
  unfoldable pub zipf_draw : ℕ → (ℕ → dbl.Carrier) → dbl.Carrier → ℕ
  zipf_draw n zipf_cdf r = zipf_search (λ i. dbl.lt (zipf_cdf i) r) n

  -- `KEY_DIST` of the client: the exponent of the skew, and none for a uniform choice.
  unfoldable pub skew : ℤ → Option dbl.Carrier
  skew dist =
      if eq_ℤ dist (pos 1)
      then some (dbl.frac 9 10)
      else if eq_ℤ dist (pos 2)
      then some (dbl.frac 95 100)
      else if eq_ℤ dist (pos 3)
      then some (dbl.frac 99 100)
      else none

  -- The two tables that the client's `main` fills.
  unfoldable pub fill_tables : ℕ → ℤ → Option (Table × Table)
  fill_tables n dist =
      Option.map (λ s. (initialize_pmf n s, initialize_reverse_pmf n s)) (skew dist)
