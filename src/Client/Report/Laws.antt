-- ===== src/Client/Report/Laws.antt =====
-- The order of the partitions in the report.
use orbit_cache_public.Prelude.{◌≡◌, true, false, List, [], ◌∷◌, All, if◌then◌else◌}
use mathlib.Core.List.{Perm}
use mathlib.Core.List.Perm
use orbit_cache_public.Prelude.Int.{pos, ltb_ℤ}
use orbit_cache_public.Double.{Double}
use orbit_cache_public.Client.Report.{Counter, compare, insert, qsort}

module _ (dbl : Double) where
  -- No item is before one that is larger.
  abbrev pub IsDescending : List (Counter dbl) → Type 0
  IsDescending [] = Unit
  IsDescending (x ∷ xs) = All (λ y. dbl.lt x.throughput y.throughput ≡ false) xs × IsDescending xs

  insert-Perm : (x : Counter dbl) (xs : List (Counter dbl)) → Perm (x ∷ xs) (insert dbl x xs)
  unfolding insert
  insert-Perm x [] = Perm.rfl
  insert-Perm x (y ∷ ys) =
      elim (ltb_ℤ (pos 0) (compare dbl x y))
        as (λ b. Perm (x ∷ y ∷ ys) (if b then y ∷ insert dbl x ys else x ∷ y ∷ ys)) [
          | true ↦ Perm.trans (Perm.swap y x ys) (Perm.cons y (insert-Perm x ys))
          | false ↦ Perm.rfl
        ]

  pub qsort-Perm : (xs : List (Counter dbl)) → Perm xs (qsort dbl xs)
  unfolding qsort
  qsort-Perm [] = Perm.rfl
  qsort-Perm (x ∷ xs) = Perm.trans (Perm.cons x (qsort-Perm xs)) (insert-Perm x (qsort dbl xs))

  abbrev HasRate : Counter dbl → Type 0
  HasRate c = dbl.is_nan c.throughput ≡ false
