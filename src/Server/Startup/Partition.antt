-- ===== src/Server/Startup/Partition.antt =====
-- The head of a worker of a configured server, and the numbers of the partitions.
use orbit_cache_public.Prelude.{
  ℕ, zero, suc, ◌+◌, ◌-◌, ◌*◌, ◌<◌, ◌≡◌, ◌∙◌, sym, ap, subst, ◌⊎◌, ◌&&◌, if◌then◌else◌, none, some,
  arith,
}
use orbit_cache_public.Prelude.Int.{ℤ, pos, pos_part, eq_ℤ}
use orbit_cache_public.Os.{Host, require, opens}
use orbit_cache_public.Os.Laws.{ending, Ending}
use orbit_cache_public.Routing.{nocache_base_port, orbitcache_base_port}
use orbit_cache_public.Server.Startup.{
  nocache, netcache, orbitcache, ServerArgs, Worker, worker_port, global_partition, start_worker,
  pin_to_cpu,
}
use orbit_cache_public.Server.Startup.Laws.{IsConfigured}

-- The first port of the protocol's workers.
abbrev pub base_port : ℤ → ℕ
base_port p = if eq_ℤ p nocache then nocache_base_port else orbitcache_base_port

worker_port_lem :
    (p : ℤ) (i : ℕ)
    → (p ≡ nocache) ⊎ (p ≡ netcache) ⊎ (p ≡ orbitcache)
    → worker_port p i ≡ some (base_port p + i)
unfolding worker_port
worker_port_lem p i known = ground arith

global_partition_lem :
    (args : ServerArgs) (i : ℕ)
    → global_partition args i ≡ pos ((pos_part args.server_id - 1) * args.workers + i)
unfolding global_partition
global_partition_lem args i = ground arith

-- What the worker `i` comes to when the port is known.
abbrev pub outcome : Host → ServerArgs → ℕ → Ending Worker
outcome host args i = elim (host.sockets i) [
  | none ↦ Ending.exited 1
  | some sock ↦
      if host.bind_ok (base_port args.protocol_id + i) && host.affinity_ok i
      then Ending.returned (record {
        partition_id = i;
        global_partition_id = pos ((pos_part args.server_id - 1) * args.workers + i);
        port = base_port args.protocol_id + i;
        sock = sock;
      })
      else Ending.exited 1
]

-- The worker i of a configured server is ready, with its partition, its port and its socket, if it gets
-- a socket, the port is free and the core is there; else the process exits with the status 1. The ports
-- start at 2000 for NoCache and at 3000 for NetCache and OrbitCache.
pub start_worker_lem :
    (host : Host) (args : ServerArgs) (i : ℕ)
    → IsConfigured host args
    → ending (start_worker host args i) ≡ outcome host args i
unfolding start_worker require opens pin_to_cpu
start_worker_lem host args i good =
    rw (worker_port_lem args.protocol_id i good.protocol, global_partition_lem args i)
      (ground arith)

first_of :
    (args : ServerArgs) (s i : ℕ)
    → args.server_id ≡ pos (suc s)
    → (pos_part args.server_id - 1) * args.workers + i ≡ s * args.workers + i
first_of args s i e = rw e (ap (λ n. n * args.workers + i) (omega arith))

digits_unique : (s t w i j : ℕ) → s * w + i ≡ t * w + j → i < w → j < w → (s ≡ t) × (i ≡ j)
digits_unique zero zero w i j e a b = grind arith
digits_unique zero (suc t) w i j e a b = grind arith
digits_unique (suc s) zero w i j e a b = grind arith
digits_unique (suc s) (suc t) w i j e a b =
    let (same, rest) = digits_unique s t w i j (omega arith) a b in (ap suc same, rest)

-- Two workers, of servers with the same number of workers, that hold the same global partition are the
-- same worker of the same server.
pub global_partition-injective :
    (a b : ServerArgs) (i j : ℕ)
    → a.workers ≡ b.workers
    → i < a.workers
    → j < b.workers
    → ((s : ℕ) × (a.server_id ≡ pos (suc s)))
    → ((s : ℕ) × (b.server_id ≡ pos (suc s)))
    → global_partition a i ≡ global_partition b j
    → (a.server_id ≡ b.server_id) × (i ≡ j)
global_partition-injective a b i j same i_low j_low (s, es) (t, et) e =
    let sums : s * b.workers + i ≡ t * b.workers + j =
      subst (λ w. s * w + i ≡ t * b.workers + j) same
        (sym (first_of a s i es)
          ∙ ap pos_part (sym (global_partition_lem a i) ∙ e ∙ global_partition_lem b j)
          ∙ first_of b t j et) in
    let (server, worker) = digits_unique s t b.workers i j sums (subst (◌<◌ i) same i_low) j_low in
    (es ∙ ap (λ n. pos (suc n)) server ∙ sym et, worker)
