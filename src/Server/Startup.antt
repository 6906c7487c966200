-- ===== src/Server/Startup.antt =====
-- server.c, `main`, and the head of `worker_t` up to its socket; the socket to the controller.
pub mod Laws
pub mod Partition
use orbit_cache_public.Prelude.{
  ℕ, ◌+◌, ◌-◌, ◌*◌, Bool, true, false, ◌&&◌, ◌||◌, not, List, [], ◌∷◌, ◌==◌, ltb, leb,
  if◌then◌else◌, get_or, length, Option, none, some,
}
use orbit_cache_public.Prelude.Int.{ℤ, pos, negsuc, pos_part, neg_part, sub_ℕ, ltb_ℤ, eq_ℤ}
use orbit_cache_public.Key.{codes}
use orbit_cache_public.Text.Number.{atoi}
use orbit_cache_public.Os.{
  Arg, num, int, txt, Thread, worker_t, Call, printf, perror, udp_socket, query_address, tcp_socket,
  connect, bind, close, set_affinity, create, join, Host, Prog, returns, exits, calls, ◌>>=◌, ◌>>◌,
  does, fails, require, opens, for_from,
}
use orbit_cache_public.Routing.{max_workers, nocache_base_port, orbitcache_base_port}

abbrev pub num_cli : ℕ
num_cli = 4

abbrev pub num_srv_workers : ℕ
num_srv_workers = 8

-- `PROTOCOL_ID`
abbrev pub nocache : ℤ
nocache = pos 0

abbrev pub netcache : ℤ
netcache = pos 2

abbrev pub orbitcache : ℤ
orbitcache = pos 3

-- `ip[strlen(ip) - 1] - '0'`, the last character of the address of the interface.
abbrev pub last_char : List ℕ → ℕ
last_char [] = 0
last_char (c ∷ []) = c
last_char (c ∷ d ∷ s) = last_char (d ∷ s)

unfoldable pub get_server_id : List ℕ → ℤ
get_server_id ip = sub_ℕ (last_char ip) b'0'

-- `pthread_setaffinity_np`; a process that cannot pin a thread ends.
unfoldable pub pin_to_cpu : Host → ℕ → Prog (Unit {0})
pin_to_cpu host core = do
  does (set_affinity core)
  require (host.affinity_ok core) (printf "Cannot pin thread. may be too many threads? \n" [] ∷ [])

-- `struct arg_t`, with `g_num_srv_workers`.
pub record ServerArgs : Type 0 where
  pub protocol_id : ℤ
  pub server_id : ℤ
  pub dist : ℤ
  pub workers : ℕ

-- The number of workers: the second argument, or the default.
unfoldable pub read_workers : List (List ℕ) → Prog ℕ
read_workers argv =
    if length argv == 3
    then (do
      let nw = atoi (get_or argv 2 [])
      require (not (ltb_ℤ nw (pos 1) || ltb_ℤ (pos max_workers) nw))
          (printf "NUM_WORKERS must be in [1, %d], got %d\n" (num max_workers ∷ int nw ∷ []) ∷ [])
      returns (pos_part nw))
    else returns num_srv_workers

-- The line that names the protocol; no other number is accepted.
unfoldable pub announce : ℤ → Prog (Unit {0})
announce protocol_id =
    if eq_ℤ protocol_id netcache
    then (do
      does (printf "NetCache is running\n" [])
      does (printf "Are you sure that the switch program is NETCACHE? double check it!\n" []))
    else if eq_ℤ protocol_id orbitcache
    then does (printf "OrbitCache is running\n" [])
    else if eq_ℤ protocol_id nocache
    then does (printf "NoCache is running\n" [])
    else fails (printf "Unknown protocol! Check program arguments again. \n" [] ∷ []) 1

-- `printf` of the messages before an exit.
abbrev pub usage : List (List ℕ) → Call
usage argv =
    printf
      "Usage: %s <PROTOCOL_ID> [<NUM_WORKERS>]\n  PROTOCOL_ID: 0=NoCache, 2=NetCache, 3=OrbitCache\n  NUM_WORKERS: emulated server workers, 1..%d (default %d)\n"
      (txt (get_or argv 0 []) ∷ num max_workers ∷ num num_srv_workers ∷ [])

abbrev pub spawning : ℕ → Call
spawning workers = printf "Server will spawn %d emulated worker(s)\n" (num workers ∷ [])

abbrev pub server_running : ℤ → Call
server_running server_id = printf "Server %d is running\n" (int server_id ∷ [])

abbrev pub bad_id : Call
bad_id =
    printf "Your server ID is not normal please check your network and server configuration." []

-- The number of the server: the last digit of its address, less the clients.
unfoldable pub read_server_id : Host → Prog ℤ
read_server_id host = do
  does query_address
  let last = get_server_id host.address
  let server_id = sub_ℕ (pos_part last) (neg_part last + num_cli)
  require (not (ltb_ℤ (pos 255) server_id || ltb_ℤ server_id (pos 1))) (bad_id ∷ [])
  returns server_id

-- `main` up to the arguments of the threads.
unfoldable pub configure : Host → List (List ℕ) → Prog ServerArgs
configure host argv = do
  require (not (ltb (length argv) 2 || ltb 3 (length argv))) (usage argv ∷ [])
  let protocol_id = atoi (get_or argv 1 [])
  workers ← read_workers argv
  does (printf "Server will spawn %d emulated worker(s)\n" (num workers ∷ []))
  server_id ← read_server_id host
  does (server_running server_id)
  announce protocol_id
  returns
      (record { protocol_id = protocol_id; server_id = server_id; dist = pos 0; workers = workers })

-- The threads of the workers, created and joined in order.
-- The threads of the workers. A worker does not return from its loop, so the first join is the last call:
-- `main` stays in it until a worker ends the process.
unfoldable pub run_workers : Host → ServerArgs → Prog (Unit {0})
run_workers host args = do
  for_from args.workers 0 (λ i. does (create worker_t i) >> require (host.alive i) [])
  for_from 1 0 (λ i. does (join worker_t i) >> require (host.alive (args.workers + i)) [])

-- What it returns stands for the wait in the first join.
unfoldable pub server_main : Host → List (List ℕ) → Prog (Unit {0})
server_main host argv = do args ← configure host argv; run_workers host args

-- The head of a worker with the number `i`, under `lock_tid`: the port, and the socket.
pub record Worker : Type 0 where
  pub partition_id : ℕ
  pub global_partition_id : ℤ
  pub port : ℕ
  pub sock : ℕ

unfoldable pub worker_port : ℤ → ℕ → Option ℕ
worker_port protocol_id i =
    if eq_ℤ protocol_id nocache
    then some (nocache_base_port + i)
    else if eq_ℤ protocol_id netcache
    then some (orbitcache_base_port + i)
    else if eq_ℤ protocol_id orbitcache
    then some (orbitcache_base_port + i)
    else none

-- `(SERVER_ID-1)*g_num_srv_workers+t_id-1`, after `t_id++`, for a server id from 1 on.
unfoldable pub global_partition : ServerArgs → ℕ → ℤ
global_partition args i = sub_ℕ ((pos_part args.server_id - 1) * args.workers + (i + 1)) 1

unfoldable pub start_worker : Host → ServerArgs → ℕ → Prog Worker
start_worker host args i = do
  port ←
      opens (worker_port args.protocol_id i)
        (printf "PROTOCOL ID is unknown. Cannot assign port numbers.\n" [] ∷ [])
  does udp_socket
  sock ← opens (host.sockets i) (printf "Could not create socket\n" [] ∷ [])
  does (bind sock port)
  require (host.bind_ok port) (printf "Could not bind socket\n" [] ∷ close sock ∷ [])
  let partition = global_partition args i
  does (
      printf "Tx/Rx Worker %d,Global Partition %d is running with Socket %d  \n"
        (num i ∷ int partition ∷ num sock ∷ []))
  pin_to_cpu host i
  returns (record { partition_id = i; global_partition_id = partition; port = port; sock = sock })

abbrev pub report_port : ℕ
report_port = 4321

abbrev pub con_addr : List ℕ
con_addr = codes "10.0.1.111"

-- The socket to the controller, opened in every run of OrbitCache and connected in a dynamic one.
unfoldable pub open_report : Host → Bool → ℕ → Prog ℕ
open_report host dynamic n = do
  does tcp_socket
  sock ← opens (host.sockets n) (printf "Could not create socket\n" [] ∷ [])
  (if dynamic then does (connect sock con_addr report_port) else returns tt)
  require (not dynamic || host.connect_ok) (perror "Connect failed!" ∷ [])
  returns sock
