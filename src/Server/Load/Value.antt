-- ===== src/Server/Load/Value.antt =====
-- The values that a worker stores at the start.
use orbit_cache_public.Prelude.{
  ℕ, zero, suc, ◌%◌, ◌≤◌, ◌≡◌, length, arith, refl, ap, List, [], ◌∷◌, ◌++◌, leb, if◌then◌else◌,
  replicate, set,
}
use orbit_cache_public.Text.{until_nul}
use orbit_cache_public.Packet.{max_value_size, small_value, large_value}
use orbit_cache_public.Server.Memory.{Memory, letters}
use orbit_cache_public.Server.Memory.Laws.{length-letters}
use orbit_cache_public.Server.Load.{lratio, initial_value}

until_nul-replicate :
    (n : ℕ) (after : List ℕ) → until_nul (replicate n b'A' ++ set after 0 0) ≡ replicate n b'A'
until_nul-replicate zero [] = refl
until_nul-replicate zero (c ∷ after) = refl
until_nul-replicate (suc n) after = ap (◌∷◌ b'A') (until_nul-replicate n after)

-- The NUL behind the array ends the string after the letters, whatever else lies there.
pub initial_value-eq-letters : (memory : Memory) (n : ℕ) → initial_value memory n ≡ letters n
unfolding initial_value letters
initial_value-eq-letters memory n = until_nul-replicate n memory.after_value

-- The value that the draw of a key gives it: 18 of 100 draws give a large one.
unfoldable pub drawn_value : ℕ → List ℕ
drawn_value draw = if leb lratio (draw % 100) then letters small_value else letters large_value

pub length-drawn_value : (draw : ℕ) → length (drawn_value draw) ≤ max_value_size
unfolding drawn_value
length-drawn_value draw = ground (arith, length-letters small_value, length-letters large_value)
