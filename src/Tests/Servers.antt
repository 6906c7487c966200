-- ===== src/Tests/Servers.antt =====
-- The theorems on the worker, for a store with one key.
use orbit_cache_public.Prelude.{
  ◌+◌, ◌*◌, ◌≤◌, ◌≡◌, true, ◌∷◌, List, [], refl, arith, [], ◌∷◌, length,
}
use orbit_cache_public.Run.{fault, stack_overflow}
use orbit_cache_public.Store.HashTable.{list_tommy}
use orbit_cache_public.Packet.{op_write, max_value_size}
use orbit_cache_public.Server.Memory.{letters}
use orbit_cache_public.Server.Memory.Laws.{length-letters}
use orbit_cache_public.Server.Orbitcache.{serve_orbitcache}
use orbit_cache_public.Server.Orbitcache.Write.{short_write-stack_overflow}
use orbit_cache_public.Server.Window.{Window, Round, limit_rps}
use orbit_cache_public.Server.Window.Laws.{taken, windows, taken_lem}
use orbit_cache_public.Tests.Fixtures.{memory, asked, asked-Asks, one_store}

small : length (letters 64) ≤ max_value_size
small = omega (arith, length-letters 64)

short_write-stack_overflow_example :
    serve_orbitcache list_tommy memory 43 (asked op_write 0) one_store ≡ fault stack_overflow
short_write-stack_overflow_example =
    short_write-stack_overflow list_tommy memory (asked op_write 0)
      (asked-Asks op_write 0 (omega arith) (omega arith)) one_store refl 43 (omega arith)
      (omega arith)

-- Two rounds with a datagram, the second after the end of the window.
abbrev rounds : List Round
rounds =
    record { now = 5; later = 6; arrived = true }
    ∷ record { now = 1000000009; later = 1000000010; arrived = true }
    ∷ []

abbrev window : Window
window = record { start_time = 0; rx_counter = 99999 }

taken_lem_example : 99999 + taken rounds window ≤ limit_rps * (windows rounds window + 1)
taken_lem_example = taken_lem rounds window (omega arith)
