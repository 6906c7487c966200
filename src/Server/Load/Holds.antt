-- ===== src/Server/Load/Holds.antt =====
-- The values that a worker holds when it has prepared its data.
use orbit_cache_public.Prelude.{
  ℕ, ◌^◌, ◌≤◌, ◌≡◌, List, true, ◌&&◌, ltb, if◌then◌else◌, none, some, length, arith,
}
use orbit_cache_public.Key.Laws.{key_of}
use orbit_cache_public.Packet.{max_value_size}
use orbit_cache_public.Store.HashTable.{Tommy}
use orbit_cache_public.Server.Memory.{Memory}
use orbit_cache_public.Server.Load.{Place, prepare_data}
use orbit_cache_public.Server.Load.Value.{drawn_value, length-drawn_value}
use orbit_cache_public.Server.Load.Laws.{belongs, prepare_data_lem}
use orbit_cache_public.Server.Values.{Values, Holds}

-- The numbers below `size` that lead to the worker have the values of their draws.
abbrev pub initial_values : Place → (ℕ → ℕ) → ℕ → Values
initial_values place rand size j =
    if ltb j size && belongs place (key_of j) then some (drawn_value (rand j)) else none

initial-small :
    (place : Place) (rand : ℕ → ℕ) (size j : ℕ) (v : List ℕ)
    → initial_values place rand size j ≡ some v
    → length v ≤ max_value_size
initial-small place rand size j v e = ground (arith, e, length-drawn_value (rand j))

-- After the data preparation a worker holds the values of the draws of its keys.
pub prepare_data-Holds :
    (tommy : Tommy) (memory : Memory) (place : Place) (rand : ℕ → ℕ) (size : ℕ) (key_str : List ℕ)
    → memory.malloc_ok ≡ true
    → size ≤ 2 ^ 64
    → length key_str ≡ 16
    → Holds tommy
        (initial_values place rand size)
        (prepare_data tommy memory place rand size key_str)
prepare_data-Holds tommy memory place rand size key_str no_failure le key_length =
    let loaded = prepare_data_lem tommy memory place rand no_failure size key_str le key_length in
    record { valid = loaded.0; holds = loaded.1; small = initial-small place rand size }
