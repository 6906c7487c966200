-- ===== src/Workload/Table/Reverse.antt =====
-- The table in which the hot keys and the coldest have changed places.
use orbit_cache_public.Prelude.{ℕ, zero, suc, ◌+◌, ◌-◌, ◌≤◌, ◌<◌, ◌≡◌, arith}
use orbit_cache_public.Double.{Double, IsNonneg, IsGrowing}
use orbit_cache_public.Workload.Laws.{Splits}
use orbit_cache_public.Workload.Table.{
  num_hotkeys, exchange, exchange_loop, zipf_pmf, initialize_pmf, initialize_reverse_pmf, draw_from,
}
use orbit_cache_public.Workload.Table.Laws.{running-Splits}

module _ (dbl : Double) (n : ℕ) where
  -- What the loop from `i` on makes of the array, at each index.
  abbrev Exchanged : ℕ → (ℕ → dbl.Carrier) → ℕ → dbl.Carrier → Type 0
  Exchanged i p k x =
      (i ≤ k → k < num_hotkeys → x ≡ p (n - num_hotkeys + k))
      × (n - num_hotkeys + i ≤ k → x ≡ p (k - (n - num_hotkeys)))
      × (k < i → x ≡ p k)
      × (num_hotkeys ≤ k → k < n - num_hotkeys + i → x ≡ p k)

  exchange_loop-IsNonneg :
      (left i : ℕ) (p : ℕ → dbl.Carrier)
      → ((j : ℕ) → IsNonneg dbl (p j))
      → (k : ℕ) → IsNonneg dbl (exchange_loop dbl left n i p k)
  unfolding exchange_loop
  exchange_loop-IsNonneg zero i p h k = h k
  exchange_loop-IsNonneg (suc left) i p h k =
      exchange_loop-IsNonneg left (i + 1) (exchange dbl i (n - num_hotkeys + i) p)
        (λ j. ground (arith, h j, h i, h (n - num_hotkeys + i))) k

-- A draw of `get_reverse_key` finds the place of the random number in that table.
pub initialize_reverse_pmf-Splits :
    (dbl : Double)
    → IsGrowing dbl
    → (n : ℕ) (s r : dbl.Carrier) → ((i : ℕ) → IsNonneg dbl ((initialize_pmf dbl n s).pmf i))
    → Splits
        (λ i. dbl.lt r ((initialize_reverse_pmf dbl n s).cdf i))
        0
        n
        (draw_from dbl n (initialize_reverse_pmf dbl n s) r)
unfolding initialize_pmf initialize_reverse_pmf draw_from
initialize_reverse_pmf-Splits dbl laws n s r probabilities =
    running-Splits dbl laws (exchange_loop dbl num_hotkeys n 0 (zipf_pmf dbl n s))
      (exchange_loop-IsNonneg dbl n num_hotkeys 0 (zipf_pmf dbl n s) probabilities) n r
