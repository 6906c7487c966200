-- ===== src/Tests/Names.antt =====
-- What is printed for a file, and the files of an Rx worker on a system that refuses nothing.
use orbit_cache_public.Prelude.{◌≡◌, refl, [], ◌∷◌, true, none, arith}
use orbit_cache_public.Key.{codes}
use orbit_cache_public.Text.Print.{decimal_of, sprintf}
use orbit_cache_public.Os.{num, Host}
use orbit_cache_public.Os.Laws.{Runs}
use orbit_cache_public.Client.Receive.{log_fields, start_rx}
use orbit_cache_public.Client.Receive.Names.{NameFits, start_rx-NameFits}
use orbit_cache_public.Tests.Loops.{args}

abbrev host : Host
host = record {
  address = codes "10.0.1.105";
  sockets = λ n. none;
  bind_ok = λ port. true;
  address_ok = λ address. true;
  connect_ok = true;
  affinity_ok = λ core. true;
  opened = λ file. true;
  send_ok = λ n. true;
  alive = λ n. true;
}

printed_number : sprintf "%lu-%d." (num 1024 ∷ num 0 ∷ []) ≡ codes "1024-0."
unfolding decimal_of
printed_number = refl

first_name :
    sprintf "./log-%lu-%lu-%d-%d-%d-%lu-%lu-%lu-%d.txt" (log_fields 8 args 0)
    ≡ codes "./log-3-5-0-4-8-3-10-1000-128.txt"
unfolding decimal_of log_fields
first_name = refl

start_rx-NameFits_example : Runs NameFits (λ u. Unit) (start_rx host 8 args 0)
start_rx-NameFits_example =
    start_rx-NameFits 8 args 0 1 3 (omega arith) (omega arith) (omega arith) (omega arith)
      (omega arith) (omega arith) (omega arith) (omega arith) host
