-- ===== src/Tests/Mains.antt =====
-- The programs on a concrete host.
use orbit_cache_public.Prelude.{
  ℕ, ◌+◌, ◌-◌, ◌≤◌, ◌<◌, ◌^◌, ◌≡◌, refl, ◌⊎◌, inr, true, List, [], ◌∷◌, ◌++◌, All, ltb, some, arith,
}
use orbit_cache_public.Prelude.Int.{pos}
use orbit_cache_public.Text.Number.{atoi, digits_from}
use orbit_cache_public.Key.{codes}
use orbit_cache_public.Os.{Call, create, join, Host, require}
use orbit_cache_public.Os.Laws.{InOrder, trace, ending, Ending, IsQuiet, each}
use orbit_cache_public.Routing.{orbitcache_base_port}
use orbit_cache_public.Server.Startup.{
  ServerArgs, server_main, global_partition, configure, read_workers, read_server_id, get_server_id,
  announce, run_workers,
}
use orbit_cache_public.Server.Startup.Laws.{IsConfigured}
use orbit_cache_public.Server.Startup.Partition.{global_partition-injective}
use orbit_cache_public.Preload.{preload_datagram}
use orbit_cache_public.Preload.Main.{target_ip, preload_main}
use orbit_cache_public.Preload.Main.Laws.{
  datagrams, IsReady, preload_main-sends, preload_main-stops,
}
use orbit_cache_public.Client.Main.{
  Options, ClientArgs, requests_of, client_args, client_main, num_cli_workers,
}
use orbit_cache_public.Client.Main.Laws.{IsSetUp}
use orbit_cache_public.Client.Main.Threads.{pairs, client_main-threads}
use orbit_cache_public.Client.Main.Requests.{client_args-num_requests}

abbrev host : Host
host = record {
  address = codes "10.0.1.105";
  sockets = λ n. some (n + 3);
  bind_ok = λ port. true;
  address_ok = λ address. true;
  connect_ok = true;
  affinity_ok = λ core. true;
  opened = λ file. true;
  send_ok = λ n. ltb n 2;
  alive = λ n. true;
}

abbrev server_argv : List (List ℕ)
server_argv = codes "./server.out" ∷ codes "3" ∷ codes "4" ∷ []

abbrev server_args : ServerArgs
server_args = record { protocol_id = pos 3; server_id = pos 1; dist = pos 0; workers = 4 }

abbrev other_args : ServerArgs
other_args = record { protocol_id = pos 3; server_id = pos 1; dist = pos 1; workers = 4 }

server_args-IsConfigured : IsConfigured host server_args
server_args-IsConfigured = record {
  protocol = inr (inr refl);
  some_worker = omega arith;
  few = omega arith;
  known_server = (1, refl, omega arith, omega arith, refl);
}

global_partition-injective_example :
    (server_args.server_id ≡ other_args.server_id) × (◌≡◌ {A = ℕ} 2 2)
unfolding global_partition
global_partition-injective_example =
    global_partition-injective server_args other_args 2 2 refl (omega arith) (omega arith) (0, refl)
      (0, refl) refl

abbrev preload_argv : List (List ℕ)
preload_argv = codes "./preload.out" ∷ codes "2" ∷ []

abbrev sending : Host
sending = record host { send_ok = λ n. true }

host-IsReady : IsReady host (target_ip preload_argv) 3
host-IsReady = record { socket = refl; bound = refl; address = refl }

sending-IsReady : IsReady sending (target_ip preload_argv) 3
sending-IsReady = record { socket = refl; bound = refl; address = refl }

preload_main-sends_example :
    (ending (preload_main sending preload_argv) ≡ Ending.returned 0)
    × (datagrams (trace (preload_main sending preload_argv))
        ≡ each 2 0 (λ j. (target_ip preload_argv, orbitcache_base_port + 1, preload_datagram 2 j)))
unfolding atoi digits_from
preload_main-sends_example =
    preload_main-sends sending preload_argv 2 3 refl (omega arith) (omega arith) sending-IsReady
      (λ j. refl)

abbrev many_argv : List (List ℕ)
many_argv = codes "./preload.out" ∷ codes "12" ∷ []

preload_main-stops_example :
    (ending (preload_main host many_argv) ≡ Ending.exited 1)
    × (datagrams (trace (preload_main host many_argv))
        ≡ each 3 0 (λ j. (target_ip many_argv, orbitcache_base_port + 1, preload_datagram 12 j)))
unfolding atoi digits_from
preload_main-stops_example =
    preload_main-stops host many_argv 12 3 2 refl (omega arith) (omega arith) host-IsReady
      (λ j l. ground arith) refl

abbrev client_argv : List (List ℕ)
client_argv =
    codes "./client.out" ∷ codes "3" ∷ codes "3" ∷ codes "10" ∷ codes "1000" ∷ codes "5" ∷ []

client_main-threads_example :
    (All IsQuiet (trace (client_main host client_argv))
      × (ending (client_main host client_argv) ≡ Ending.exited 1))
    ⊎ ((given : Options × List ClientArgs) × IsSetUp host given
        × ((quiet : List Call) × All IsQuiet quiet
            × InOrder
                (client_main host client_argv)
                (quiet ++ (pairs create num_cli_workers 0 ++ pairs join num_cli_workers 0))
                given))
client_main-threads_example = client_main-threads host client_argv

-- 300 million requests a second for ten seconds.
abbrev too_fast : Options
too_fast = record {
  protocol_id = pos 3;
  dist = pos 0;
  time_exp = pos 10;
  target_qps = 300000000;
  wratio = pos 0;
  workers = 8;
  num_requests = requests_of 300000000 (pos 10);
  server_id = pos 5;
}

client_args-num_requests_example :
    (3000000000 < 2 ^ 31 → (client_args too_fast 0 3).num_requests ≡ 3000000000)
    × (2 ^ 31 ≤ 3000000000
        → 3000000000 < 2 ^ 32
        → 2 ^ 64 - 2 ^ 31 ≤ (client_args too_fast 0 3).num_requests)
client_args-num_requests_example = client_args-num_requests too_fast 0 3 10 refl refl (omega arith)

-- The runs themselves: a server with four workers, and a wrong number of arguments.
server_run : ending (server_main host server_argv) ≡ Ending.returned tt
unfolding server_main configure read_workers read_server_id get_server_id announce run_workers
    require atoi digits_from
server_run = refl

server_wrong : ending (server_main host []) ≡ Ending.exited 1
unfolding server_main configure require
server_wrong = refl
