-- ===== src/Tests/Fixtures.antt =====
-- Concrete inputs: a worker with 8 MB of stack, a store with one key, requests for that key.
use orbit_cache_public.Prelude.{
  ℕ, ◌^◌, ◌<◌, ◌≡◌, refl, ap, ◌∙◌, arith, List, [], ◌∷◌, ◌++◌, true, some, length, length-append,
  length-replicate, get_or,
}
use orbit_cache_public.Text.Laws.{Spells, str_eq_refl, strncpy_bytes_of_length}
use orbit_cache_public.Key.Laws.{key_of, key_of-IsText, length-key_of}
use orbit_cache_public.Routing.{dst_ip, dst_addr, partition_of}
use orbit_cache_public.Packet.{max_value_size}
use orbit_cache_public.Packet.Orbitcache.{OrbitcacheHdr, IsOrbitcacheHdr, blank_orbitcache}
use orbit_cache_public.Store.HashTable.{list_tommy}
use orbit_cache_public.Store.{Store, tommy_hashlin_init, tommy_put, tommy_get}
use orbit_cache_public.Store.Laws.{IsValid, init-IsValid, tommy_get-tommy_put}
use orbit_cache_public.Client.Seq.{SeqHdrs, initial_seq_hdrs, seq_get}
use orbit_cache_public.Client.Seq.Laws.{initial-IsTable, put_run, seq_get-put_run}
use orbit_cache_public.Client.Request.{Draw}
use orbit_cache_public.Server.Memory.{Memory, letters}
use orbit_cache_public.Server.Load.{Place}
use orbit_cache_public.Server.Orbitcache.Laws.{Asks}

abbrev pub memory : Memory
memory = record {
  after_key = 66 ∷ 0 ∷ [];
  after_value = 0 ∷ 7 ∷ [];
  stack_left = 8388608;
  malloc_ok = true;
}

abbrev pub workers : ℕ
workers = 4

abbrev pub k7 : List ℕ
k7 = key_of 7

-- The worker of the seventh key.
abbrev pub place : Place
place = record {
  ipaddr = get_or dst_ip (dst_addr k7) [];
  partition_id = partition_of workers k7;
  num_srv_workers = workers;
}

abbrev pub asked : ℕ → ℕ → OrbitcacheHdr
asked op flag = record blank_orbitcache { op = op; flag = flag; org_key = k7 ++ 0 ∷ [] }

pub blank_fits : IsOrbitcacheHdr blank_orbitcache
blank_fits = record {
  op_fits = omega arith;
  seq_fits = omega arith;
  hkey_hi_fits = omega arith;
  hkey_lo_fits = omega arith;
  flag_fits = omega arith;
  cached_fits = omega arith;
  latency_fits = omega arith;
  par_id_fits = omega arith;
  key_length = length-replicate {A = ℕ} 16 0;
  value_length = length-replicate {A = ℕ} max_value_size 0;
}

pub k7_spelt : Spells k7 (k7 ++ 0 ∷ [])
k7_spelt = record { text = key_of-IsText 7; rest = []; split = refl }

pub k7_array : length (k7 ++ 0 ∷ []) ≡ 16
k7_array = omega (arith, length-append {0} k7 (0 ∷ []), length-key_of 7)

pub asked-Asks : (op flag : ℕ) → op < 2 ^ 8 → flag < 2 ^ 8 → Asks k7 (asked op flag)
asked-Asks op flag lt lt' = record {
  fits = record {
    op_fits = lt;
    seq_fits = omega arith;
    hkey_hi_fits = omega arith;
    hkey_lo_fits = omega arith;
    flag_fits = lt';
    cached_fits = omega arith;
    latency_fits = omega arith;
    par_id_fits = omega arith;
    key_length = k7_array;
    value_length = length-replicate {A = ℕ} max_value_size 0;
  };
  spells = k7_spelt;
}

abbrev pub empty_store : Store list_tommy
empty_store = tommy_hashlin_init list_tommy

abbrev pub one_store : Store list_tommy
one_store = tommy_put list_tommy true empty_store k7 (letters 64)

pub empty-IsValid : IsValid list_tommy empty_store
empty-IsValid = init-IsValid list_tommy

pub one-IsValid : IsValid list_tommy one_store
one-IsValid = (tommy_get-tommy_put list_tommy empty_store k7 (letters 64) empty-IsValid []).0

pub one_found : tommy_get list_tommy one_store k7 ≡ some (letters 64)
one_found =
    (tommy_get-tommy_put list_tommy empty_store k7 (letters 64) empty-IsValid k7).1
    ∙ rw (str_eq_refl k7) refl

-- A read of the seventh key.
abbrev pub draw : Draw
draw = record { key_value = 7; write_draw = 55; size_draw = 3; now_us = 1000 }

-- The table after that key was sent under sequence number 5.
abbrev pub table : SeqHdrs
table = put_run initial_seq_hdrs 5 (λ i. k7) 1

pub table_at_5 : seq_get table 5 ≡ some (k7 ++ 0 ∷ [])
table_at_5 =
    seq_get-put_run initial_seq_hdrs 5 (λ i. k7) 1 5 initial-IsTable (omega arith) (omega arith)
      (omega arith)
    ∙ ap (λ a. some (a ++ 0 ∷ [])) (strncpy_bytes_of_length 15 k7 (length-key_of 7))
