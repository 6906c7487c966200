-- ===== src/Client/Main.antt =====
-- client.c, `main`: the arguments, the sockets, and the threads. The tables of the key distribution
-- are Workload.Table's.
pub mod Laws
pub mod Threads
pub mod Requests
use orbit_cache_public.Prelude.{
  ℕ, zero, suc, ◌+◌, ◌-◌, ◌*◌, ◌^◌, Bool, true, false, ◌||◌, not, List, [], ◌∷◌, ◌==◌, ltb, leb,
  u64, if◌then◌else◌, get_or, length,
}
use orbit_cache_public.Prelude.Int.{ℤ, pos, negsuc, pos_part, ltb_ℤ, eq_ℤ, u64_of, i32_of}
use orbit_cache_public.Text.Number.{atoi}
use orbit_cache_public.Os.{
  Arg, num, int, txt, Thread, tx_t, rx_t, Call, printf, udp_socket, query_address, bind, close,
  create, join, Host, Prog, returns, exits, calls, ◌>>=◌, ◌>>◌, does, fails, require, opens,
  for_from,
}
use orbit_cache_public.Routing.{max_workers, orbitcache_base_port}
use orbit_cache_public.Server.Startup.{num_srv_workers, get_server_id}

-- `NUM_CLI_WORKERS`
abbrev pub num_cli_workers : ℕ
num_cli_workers = 1

-- The options of the command line, and the id of the client.
pub record Options : Type 0 where
  pub protocol_id : ℤ
  pub dist : ℤ
  pub time_exp : ℤ
  pub target_qps : ℕ
  pub wratio : ℤ
  pub workers : ℕ
  pub num_requests : ℤ
  pub server_id : ℤ

-- `struct arg_t`, the arguments of a pair of threads.
pub record ClientArgs : Type 0 where
  pub sock : ℕ
  pub src_port : ℕ
  pub target_qps : ℕ
  pub num_requests : ℕ
  pub wratio : ℤ
  pub protocol_id : ℤ
  pub server_id : ℤ
  pub dist : ℤ
  pub time_exp : ℕ

-- `int NUM_REQUESTS = TARGET_QPS*TIME_EXP`, a product in `uint64_t` that is stored in an `int`.
unfoldable pub requests_of : ℕ → ℤ → ℤ
requests_of target_qps time_exp = i32_of (u64 (target_qps * u64_of time_exp))

abbrev pub client_usage : List (List ℕ) → Call
client_usage argv =
    printf
      "Usage: %s <PROTOCOL_ID> <KEY_DIST> <TIME_EXP> <TARGET_QPS> <WRITE_RATIO> [<NUM_SRV_WORKERS>]\n  NUM_SRV_WORKERS: emulated workers per server, 1..%d (default %d).\n                   Must match the value passed to server.out.\n"
      (txt (get_or argv 0 []) ∷ num max_workers ∷ num num_srv_workers ∷ [])

-- The number of workers per server: the sixth argument, or the default.
unfoldable pub read_srv_workers : List (List ℕ) → Prog ℕ
read_srv_workers argv =
    if length argv == 7
    then (do
      let nw = atoi (get_or argv 6 [])
      require (not (ltb_ℤ nw (pos 1) || ltb_ℤ (pos max_workers) nw)) (
          printf "NUM_SRV_WORKERS must be in [1, %d], got %d\n" (num max_workers ∷ int nw ∷ [])
          ∷ [])
      returns (pos_part nw))
    else returns num_srv_workers

-- `SERVER_ID > 255 || SERVER_ID == -1 || SERVER_ID == 0`; the address is read twice.
unfoldable pub read_client_id : Host → Prog ℤ
read_client_id host = do
  does query_address
  does query_address
  let server_id = get_server_id host.address
  require (not (ltb_ℤ (pos 255) server_id || eq_ℤ server_id (negsuc 0) || eq_ℤ server_id (pos 0))) (
      printf "Your server ID is not normal please check your network and server configuration." []
      ∷ [])
  does (printf "Client %d is running \n" (int server_id ∷ []))
  returns server_id

abbrev pub using_workers : ℕ → Call
using_workers workers = printf "Client using %d emulated worker(s) per server\n" (num workers ∷ [])

abbrev pub bad_dist : Call
bad_dist = printf "Distribution cannot exceed 3. 0: uniform, 1: 0.9, 2: 0.95, 3: 0.99\n" []

abbrev pub bad_ratio : Call
bad_ratio = printf "Write ratio should be 0 <= WRATIO <= 100\n" []

unfoldable pub read_options : Host → List (List ℕ) → Prog Options
read_options host argv = do
  require (not (ltb (length argv) 6 || ltb 7 (length argv))) (client_usage argv ∷ [])
  let protocol_id = atoi (get_or argv 1 [])
  let dist = atoi (get_or argv 2 [])
  let time_exp = atoi (get_or argv 3 [])
  let target_qps = u64_of (atoi (get_or argv 4 []))
  let wratio = atoi (get_or argv 5 [])
  workers ← read_srv_workers argv
  does (using_workers workers)
  require (not (ltb_ℤ (pos 3) dist || ltb_ℤ dist (pos 0))) (bad_dist ∷ [])
  require (not (ltb_ℤ (pos 100) wratio || ltb_ℤ wratio (pos 0))) (bad_ratio ∷ [])
  server_id ← read_client_id host
  returns (record {
    protocol_id = protocol_id;
    dist = dist;
    time_exp = time_exp;
    target_qps = target_qps;
    wratio = wratio;
    workers = workers;
    num_requests = requests_of target_qps time_exp;
    server_id = server_id;
  })

-- `args[i]`, with the conversions to the types of the fields.
unfoldable pub client_args : Options → ℕ → ℕ → ClientArgs
client_args o i sock = record {
  sock = sock;
  src_port = orbitcache_base_port + i;
  target_qps = o.target_qps;
  num_requests = u64_of o.num_requests;
  wratio = o.wratio;
  protocol_id = o.protocol_id;
  server_id = o.server_id;
  dist = o.dist;
  time_exp = u64_of o.time_exp;
}

abbrev pub no_socket : Call
no_socket = printf "Could not create socket\n" []

abbrev pub no_port : Call
no_port = printf "Could not bind socket\n" []

-- The sockets of the workers from `i` on, each bound to its port.
unfoldable pub open_sockets : Host → Options → ℕ → ℕ → Prog (List ClientArgs)
open_sockets host o zero i = returns []
open_sockets host o (suc left) i = do
  does udp_socket
  sock ← opens (host.sockets i) (no_socket ∷ [])
  does (bind sock (orbitcache_base_port + i))
  require (host.bind_ok (orbitcache_base_port + i)) (no_port ∷ close sock ∷ [])
  rest ← open_sockets host o left (i + 1)
  returns (client_args o i sock ∷ rest)

-- The threads of the workers: each receiver before its sender. A thread that is joined is taken to end, or
-- to end the process.
unfoldable pub run_clients : Host → ℕ → Prog (Unit {0})
run_clients host n = do
  for_from n 0 (λ i.
      (does (create rx_t i) >> require (host.alive (2 * i)) [])
      >> (does (create tx_t i) >> require (host.alive (2 * i + 1)) []))
  for_from n 0 (λ i.
      (does (join rx_t i) >> require (host.alive (2 * n + 2 * i)) [])
      >> (does (join tx_t i) >> require (host.alive (2 * n + 2 * i + 1)) []))

-- `main` up to the threads, with what they are given.
unfoldable pub set_up : Host → List (List ℕ) → Prog (Options × List ClientArgs)
set_up host argv = do
  o ← read_options host argv
  does (printf "Collision detection table done\n" [])
  does (printf "Query PMF setup done\n" [])
  args ← open_sockets host o num_cli_workers 0
  returns (o, args)

-- `main` up to the report.
unfoldable pub client_main : Host → List (List ℕ) → Prog (Options × List ClientArgs)
client_main host argv = do given ← set_up host argv; run_clients host num_cli_workers; returns given
