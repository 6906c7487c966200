-- ===== src/Tests/Handlers.antt =====
-- The handlers of the three protocols with a request for the seventh key.
use orbit_cache_public.Prelude.{
  ℕ, ◌+◌, ◌*◌, ◌≤◌, ◌≡◌, refl, [], ◌∷◌, ◌++◌, true, arith, length-replicate, replicate,
}
use orbit_cache_public.Run.{fault, buffer_overflow}
use orbit_cache_public.Packet.{max_value_size, op_read, op_write, op_fetch}
use orbit_cache_public.Packet.Nocache.{
  NocacheHdr, IsNocacheHdr, blank_nocache, nocache_head, send_nocache,
}
use orbit_cache_public.Packet.Netcache.{
  NetcacheHdr, IsNetcacheHdr, blank_netcache, netcache_head, send_netcache,
}
use orbit_cache_public.Packet.Orbitcache.{
  IsOrbitcacheHdr, blank_orbitcache, orbitcache_head, send_orbitcache,
}
use orbit_cache_public.Store.HashTable.{list_tommy}
use orbit_cache_public.Store.{Store, tommy_put}
use orbit_cache_public.Server.Memory.{letters, Room}
use orbit_cache_public.Server.Memory.Laws.{length-letters}
use orbit_cache_public.Server.Values.{Values, updated, Holds, tommy_put-Holds}
use orbit_cache_public.Server.Load.{prepare_data}
use orbit_cache_public.Server.Load.Holds.{initial_values, prepare_data-Holds}
use orbit_cache_public.Server.Loop.{
  Delivery, handle, nocache_protocol, netcache_protocol, orbitcache_protocol,
}
use orbit_cache_public.Server.Loop.Refines.{Done}
use orbit_cache_public.Server.Orbitcache.Write.{write_answer}
use orbit_cache_public.Server.Orbitcache.Spec.{OrbitcacheSpec}
use orbit_cache_public.Server.Orbitcache.Loop.{orbitcache_handler-Done}
use orbit_cache_public.Server.Nocache.Spec.{Request, read_answer, NocacheSpec}
use orbit_cache_public.Server.Nocache.Loop.{nocache_handler-Done, nocache_read-buffer_overflow}
use orbit_cache_public.Server.Netcache.Spec.{
  fetch_answer, write_answer as write_answer_netcache, NetcacheSpec,
}
use orbit_cache_public.Server.Netcache.Loop.{netcache_handler-Done}
use orbit_cache_public.Tests.Fixtures.{
  memory, place, k7, k7_spelt, k7_array, asked, asked-Asks, blank_fits,
}

pub room : (m : ℕ) → m ≤ 1416 → Room m memory
room m le = record { stack = omega arith; malloc = refl; ends = refl }

-- The data of the worker, and then a value for the seventh key.
abbrev before : Store list_tommy
before = prepare_data list_tommy memory place (λ i. i * 7) 9 (replicate 16 1)

before-Holds : Holds list_tommy (initial_values place (λ i. i * 7) 9) before
before-Holds =
    prepare_data-Holds list_tommy memory place (λ i. i * 7) 9 (replicate 16 1) refl (omega arith)
      refl

abbrev values_with : ℕ → Values
values_with m = updated (initial_values place (λ i. i * 7) 9) 7 (letters m)

abbrev store_with : ℕ → Store list_tommy
store_with m = tommy_put list_tommy true before k7 (letters m)

store_with-Holds : (m : ℕ) → m ≤ 1416 → Holds list_tommy (values_with m) (store_with m)
store_with-Holds m le =
    tommy_put-Holds list_tommy (initial_values place (λ i. i * 7) 9) before 7 (letters m)
      before-Holds (omega arith) (omega (arith, length-letters m))

abbrev written : Delivery
written = record {
  datagram = send_orbitcache (orbitcache_head + 3) (asked op_write 0);
  memory = memory;
}

orbitcache_handler-Done_example :
    Done
      (orbitcache_protocol list_tommy)
      IsOrbitcacheHdr
      (write_answer 3 (asked op_write 0) ∷ [])
      (values_with 3)
      (handle (orbitcache_protocol list_tommy) written blank_orbitcache before)
orbitcache_handler-Done_example =
    orbitcache_handler-Done list_tommy
      (OrbitcacheSpec.write (initial_values place (λ i. i * 7) 9) written 7 3 (asked op_write 0)
        (record {
          number = omega arith;
          asks = asked-Asks op_write 0 (omega arith) (omega arith);
          small = omega arith;
          datagram = refl;
        })
        refl (room 3 (omega arith)))
      blank_orbitcache blank_fits before before-Holds

abbrev nocache_read : NocacheHdr
nocache_read = record blank_nocache { op = op_read; org_key = k7 ++ 0 ∷ [] }

nocache_read-IsNocacheHdr : IsNocacheHdr nocache_read
nocache_read-IsNocacheHdr = record {
  op_fits = omega arith;
  seq_fits = omega arith;
  cached_fits = omega arith;
  latency_fits = omega arith;
  par_id_fits = omega arith;
  key_length = k7_array;
  value_length = length-replicate {A = ℕ} max_value_size 0;
}

pub blank-IsNocacheHdr : IsNocacheHdr blank_nocache
blank-IsNocacheHdr = record {
  op_fits = omega arith;
  seq_fits = omega arith;
  cached_fits = omega arith;
  latency_fits = omega arith;
  par_id_fits = omega arith;
  key_length = length-replicate {A = ℕ} 16 0;
  value_length = length-replicate {A = ℕ} max_value_size 0;
}

abbrev asked_nocache : Delivery
asked_nocache = record { datagram = send_nocache (nocache_head + 0) nocache_read; memory = memory }

nocache_read-Request : Request 7 0 nocache_read asked_nocache
nocache_read-Request = record {
  number = omega arith;
  fits = nocache_read-IsNocacheHdr;
  spells = k7_spelt;
  small = omega arith;
  datagram = refl;
}

nocache_handler-Done_example :
    Done
      (nocache_protocol list_tommy)
      IsNocacheHdr
      (read_answer (letters 64) nocache_read ∷ [])
      (values_with 64)
      (handle (nocache_protocol list_tommy) asked_nocache blank_nocache (store_with 64))
nocache_handler-Done_example =
    nocache_handler-Done list_tommy
      (NocacheSpec.read (values_with 64) asked_nocache 7 0 nocache_read (letters 64)
        nocache_read-Request refl refl (omega (arith, length-letters 64)))
      blank_nocache blank-IsNocacheHdr (store_with 64) (store_with-Holds 64 (omega arith))

nocache_read-buffer_overflow_example :
    handle (nocache_protocol list_tommy) asked_nocache blank_nocache (store_with 1416)
    ≡ fault buffer_overflow
nocache_read-buffer_overflow_example =
    nocache_read-buffer_overflow list_tommy asked_nocache 7 0 nocache_read nocache_read-Request
      blank_nocache blank-IsNocacheHdr (store_with 1416) (store_with-Holds 1416 (omega arith))
      (letters 1416) refl refl (length-letters 1416)

abbrev netcache_fetch : NetcacheHdr
netcache_fetch = record blank_netcache { op = op_fetch; org_key = k7 ++ 0 ∷ [] }

netcache_fetch-IsNetcacheHdr : IsNetcacheHdr netcache_fetch
netcache_fetch-IsNetcacheHdr = record {
  op_fits = omega arith;
  seq_fits = omega arith;
  hkey_hi_fits = omega arith;
  hkey_lo_fits = omega arith;
  cached_fits = omega arith;
  latency_fits = omega arith;
  par_id_fits = omega arith;
  key_length = k7_array;
  value_length = length-replicate {A = ℕ} max_value_size 0;
}

abbrev fetched_netcache : Delivery
fetched_netcache = record {
  datagram = send_netcache (netcache_head + 5) netcache_fetch;
  memory = memory;
}

netcache_handler-Done_example :
    Done
      (netcache_protocol list_tommy)
      IsNetcacheHdr
      (fetch_answer 5 netcache_fetch
        ∷ write_answer_netcache (record netcache_fetch { seq = 0 })
        ∷ [])
      (values_with 5)
      (handle (netcache_protocol list_tommy) fetched_netcache netcache_fetch before)
netcache_handler-Done_example =
    netcache_handler-Done list_tommy
      (NetcacheSpec.fetch (initial_values place (λ i. i * 7) 9) fetched_netcache 7 5 netcache_fetch
        (record {
          number = omega arith;
          fits = netcache_fetch-IsNetcacheHdr;
          spells = k7_spelt;
          small = omega arith;
          datagram = refl;
        })
        refl (room 5 (omega arith)))
      netcache_fetch netcache_fetch-IsNetcacheHdr before before-Holds
