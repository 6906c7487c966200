-- ===== src/Double.antt =====
-- The double-precision numbers, as far as the code computes with them, behind an interface: the
-- programs are modelled over any numbers with these operations, and a theorem names the laws it needs.
use orbit_cache_public.Prelude.{ℕ, Bool, true, false, ◌≡◌}

-- `of_ℕ` is the conversion of an integer, `frac a b` the literal a / b.
pub record Double : Type 1 where
  pub Carrier : Type 0
  pub of_ℕ : ℕ → Carrier
  pub frac : ℕ → ℕ → Carrier
  pub plus : Carrier → Carrier → Carrier
  pub minus : Carrier → Carrier → Carrier
  pub times : Carrier → Carrier → Carrier
  pub over : Carrier → Carrier → Carrier
  pub pow : Carrier → Carrier → Carrier
  pub lt : Carrier → Carrier → Bool
  pub is_nan : Carrier → Bool

-- The comparison, in which only NaN is not between two numbers of which one is the less.
pub record IsOrdered (dbl : Double) : Type 0 where
  pub lt_asymm : (x y : dbl.Carrier) → dbl.lt x y ≡ true → dbl.lt y x ≡ false
  pub lt_negtrans :
      (x y z : dbl.Carrier)
      → dbl.is_nan y ≡ false
      → dbl.lt x y ≡ false
      → dbl.lt y z ≡ false
      → dbl.lt x z ≡ false

-- A number that is not below zero.
abbrev pub IsNonneg : (dbl : Double) → dbl.Carrier → Type 0
IsNonneg dbl x = (dbl.is_nan x ≡ false) × (dbl.lt x (dbl.of_ℕ 0) ≡ false)

-- The rounded sum of two such numbers is a number, and no less than the first.
pub record IsGrowing (dbl : Double) : Type 0 where
  pub ordered : IsOrdered dbl
  pub plus_ge :
      (x w : dbl.Carrier)
      → IsNonneg dbl x
      → IsNonneg dbl w
      → (dbl.is_nan (dbl.plus x w) ≡ false) × (dbl.lt (dbl.plus x w) x ≡ false)
