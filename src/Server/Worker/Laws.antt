-- ===== src/Server/Worker/Laws.antt =====
-- A worker that its host lets start, with its data, and the requests that come to its port.
use orbit_cache_public.Prelude.{ℕ, ◌+◌, ◌-◌, ◌*◌, ◌≡◌, List, true, some}
use orbit_cache_public.Prelude.Int.{pos, pos_part}
use orbit_cache_public.Os.{Host}
use orbit_cache_public.Store.HashTable.{Tommy}
use orbit_cache_public.Server.Memory.{Memory}
use orbit_cache_public.Server.Load.{Place, prepare_data}
use orbit_cache_public.Server.Startup.{ServerArgs, Worker}
use orbit_cache_public.Server.Startup.Partition.{base_port}
use orbit_cache_public.Server.Worker.{Prepared}

-- The system gives the worker `i` what it asks for.
pub record Grants (host : Host) (args : ServerArgs) (i sock : ℕ) : Type 0 where
  pub socket : host.sockets i ≡ some sock
  pub bound : host.bind_ok (base_port args.protocol_id + i) ≡ true
  pub pinned : host.affinity_ok i ≡ true

abbrev started : ServerArgs → ℕ → ℕ → Worker
started args i sock = record {
  partition_id = i;
  global_partition_id = pos ((pos_part args.server_id - 1) * args.workers + i);
  port = base_port args.protocol_id + i;
  sock = sock;
}

abbrev place_of : Host → ServerArgs → ℕ → Place
place_of host args i = record {
  ipaddr = host.address;
  partition_id = i;
  num_srv_workers = args.workers;
}

-- The worker `i` with its data.
abbrev pub prepared :
    (tommy : Tommy) → Memory → (ℕ → ℕ) → ℕ → List ℕ → Host → ServerArgs → ℕ → ℕ → Prepared tommy
prepared tommy memory rand size key_str host args i sock = record {
  worker = started args i sock;
  place = place_of host args i;
  hashlin = prepare_data tommy memory (place_of host args i) rand size key_str;
}
