-- ===== src/Tests/Tables.antt =====
-- The floating-point interface, at the natural numbers.
use orbit_cache_public.Prelude.{ℕ, ◌+◌, ◌-◌, ◌*◌, ◌/◌, ◌^◌, false, ltb}
use orbit_cache_public.Double.{Double}

abbrev natural : Double
natural = record {
  Carrier = ℕ;
  of_ℕ = λ n. n;
  frac = λ a b. a / b;
  plus = λ a b. a + b;
  minus = λ a b. a - b;
  times = λ a b. a * b;
  over = λ a b. a / b;
  pow = λ a b. a ^ b;
  lt = ltb;
  is_nan = λ a. false;
}
