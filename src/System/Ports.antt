-- ===== src/System/Ports.antt =====
-- The port that a client sends to (client.c, `tx_t`), and the port that a worker listens at (server.c,
-- `worker_t`).
use orbit_cache_public.Prelude.{ℕ, ◌≤◌, ◌<◌, ◌≡◌, ◌≢◌, refl, some, arith}
use orbit_cache_public.Prelude.Int.{ℤ}
use orbit_cache_public.Routing.{max_workers, partition_of}
use orbit_cache_public.Routing.Laws.{partition_of-lt}
use orbit_cache_public.Server.Startup.{nocache, netcache, orbitcache, worker_port}
use orbit_cache_public.Client.Seq.{SeqHdrs}
use orbit_cache_public.Client.Request.{Draw, request_orbitcache, request_netcache, request_nocache}

-- One of the workers of the protocol listens at the port.
abbrev pub Heard : ℕ → ℤ → ℕ → Type 0
Heard workers protocol_id port = (i : ℕ) × (i < workers) × (worker_port protocol_id i ≡ some port)

-- The ports of NetCache requests are below those of its workers.
not_heard : (i port : ℕ) → port < 3000 → worker_port netcache i ≢ some port
unfolding worker_port
not_heard i port low e = ground (arith, e)

-- Where client and server have the same number of workers, from 1 to the maximum, the request of a key in the
-- OrbitCache and the NoCache protocol goes to a port at which a worker of that protocol listens; in the
-- NetCache protocol it goes to a port at which none listens, whatever the number of workers.
pub request_port_lem :
    (workers wratio : ℕ) (draw : Draw) (seq_hdrs : SeqHdrs) (seq_global : ℕ)
    → 1 ≤ workers
    → workers ≤ max_workers
    → Heard workers orbitcache (request_orbitcache workers wratio draw seq_hdrs seq_global).0.port
      × Heard workers nocache (request_nocache workers wratio draw).port
      × ((i : ℕ) → worker_port netcache i ≢ some (request_netcache workers wratio draw).port)
unfolding request_orbitcache request_nocache request_netcache worker_port partition_of
request_port_lem workers wratio draw seq_hdrs seq_global some_worker few = (
  (_, partition_of-lt workers _ some_worker few, refl),
  (_, partition_of-lt workers _ some_worker few, refl),
  λ i e. not_heard i _ (omega arith) e,
)
