-- ===== src/Workload/Table/Laws.antt =====
-- The table grows, and a draw from it finds the place of the random number.
use orbit_cache_public.Prelude.{
  ℕ, zero, suc, ◌+◌, ◌-◌, ◌≡◌, subst, false, Bool-cases, inl, inr, arith,
}
use orbit_cache_public.Double.{Double, IsNonneg, IsGrowing}
use orbit_cache_public.Workload.{key_search}
use orbit_cache_public.Workload.Laws.{IsCumulative, Splits, key_search-Splits}
use orbit_cache_public.Workload.Table.{running}

module _ (dbl : Double) (laws : IsGrowing dbl) (p : ℕ → dbl.Carrier)
    (probabilities : (i : ℕ) → IsNonneg dbl (p i)) where
  lt_irrefl : (x : dbl.Carrier) → dbl.lt x x ≡ false
  lt_irrefl x = elim (Bool-cases (dbl.lt x x)) [
    | inl less ↦ laws.ordered.lt_asymm x x less
    | inr same ↦ same
  ]

  running-IsNonneg : (i : ℕ) → IsNonneg dbl (running dbl p i)
  unfolding running
  running-IsNonneg zero = probabilities 0
  running-IsNonneg (suc i) =
      let before = running-IsNonneg i in
      let (number, more) =
        laws.plus_ge (running dbl p i) (p (suc i)) before (probabilities (suc i)) in
      (number, laws.ordered.lt_negtrans _ (running dbl p i) _ before.0 more before.1)

  -- No later sum is less.
  running_mono : (i k : ℕ) → dbl.lt (running dbl p (i + k)) (running dbl p i) ≡ false
  unfolding running
  running_mono i zero =
      subst (λ n. dbl.lt (running dbl p n) (running dbl p i) ≡ false) {x = i} (omega arith)
        (lt_irrefl (running dbl p i))
  running_mono i (suc k) =
      subst (λ n. dbl.lt (running dbl p n) (running dbl p i) ≡ false) {x = suc (i + k)}
        (omega arith)
        (laws.ordered.lt_negtrans _ (running dbl p (i + k)) _ (running-IsNonneg (i + k)).0
          (laws.plus_ge (running dbl p (i + k)) (p (suc (i + k))) (running-IsNonneg (i + k))
            (probabilities (suc (i + k)))).1
          (running_mono i k))

  running-IsCumulative : (r : dbl.Carrier) → IsCumulative (λ i. dbl.lt r (running dbl p i))
  running-IsCumulative r i j le under =
      let later : dbl.lt (running dbl p j) (running dbl p i) ≡ false =
        subst (λ n. dbl.lt (running dbl p n) (running dbl p i) ≡ false) {x = i + (j - i)}
          (omega arith) (running_mono i (j - i)) in
      elim (Bool-cases (dbl.lt r (running dbl p j))) [
        | inl above ↦ above
        | inr not_under ↦ absurd (
            cc (
              laws.ordered.lt_negtrans r (running dbl p j) (running dbl p i) (running-IsNonneg j).0
                  not_under later,
              under,
            ))
      ]

  -- The search in the sums.
  pub running-Splits :
      (n : ℕ) (r : dbl.Carrier)
      → Splits
          (λ i. dbl.lt r (running dbl p i))
          0
          n
          (key_search (λ i. dbl.lt r (running dbl p i)) n)
  running-Splits n r = key_search-Splits _ n (running-IsCumulative r)
