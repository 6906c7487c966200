-- ===== src/Server/Worker.antt =====
-- server.c, `worker_t` up to its loop: the head, and the data of the worker's partition.
pub mod Laws
use orbit_cache_public.Prelude.{ℕ, List, []}
use orbit_cache_public.Os.{printf, query_address, Host, Prog, returns, calls, ◌>>=◌, ◌>>◌, does}
use orbit_cache_public.Store.HashTable.{Tommy}
use orbit_cache_public.Store.{Store}
use orbit_cache_public.Server.Memory.{Memory}
use orbit_cache_public.Server.Load.{Place, prepare_data}
use orbit_cache_public.Server.Startup.{ServerArgs, Worker, start_worker}

-- `strdup` of the address of the interface.
unfoldable pub get_ip_address : Host → Prog (List ℕ)
get_ip_address host = do does query_address; returns host.address

module _ (tommy : Tommy) where
  -- The locals of a worker with its data: `sock`, the port, `ipaddr`, `partition_id`, `hashlin`.
  pub record Prepared : Type 0 where
    pub worker : Worker
    pub place : Place
    pub hashlin : Store tommy

  module _ (memory : Memory) (rand : ℕ → ℕ) (size : ℕ) (key_str : List ℕ) (host : Host)
      (args : ServerArgs) where
    -- The data of a started worker. `rand i` is the draw of the round of key `i`, and `key_str` is what
    -- the array `keyStr` holds before.
    unfoldable pub load_data : Worker → Prog Prepared
    load_data worker = do
      ipaddr ← get_ip_address host
      let place : Place = record {
        ipaddr = ipaddr;
        partition_id = worker.partition_id;
        num_srv_workers = args.workers;
      }
      let hashlin = prepare_data tommy memory place rand size key_str
      does (printf "Data preparation done\n" [])
      returns (record { worker = worker; place = place; hashlin = hashlin })

    unfoldable pub prepare_worker : ℕ → Prog Prepared
    prepare_worker i = do worker ← start_worker host args i; load_data worker
