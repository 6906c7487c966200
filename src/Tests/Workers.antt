-- ===== src/Tests/Workers.antt =====
-- A server of four workers and a read of the seventh key, at the host and the partition of that key.
use orbit_cache_public.Prelude.{◌+◌, ◌-◌, some, true}
use orbit_cache_public.Prelude.Int.{pos}
use orbit_cache_public.Os.{Host}
use orbit_cache_public.Routing.{dst_addr}
use orbit_cache_public.Server.Startup.{orbitcache, ServerArgs}
use orbit_cache_public.Tests.Fixtures.{place, k7, workers}

abbrev host : Host
host = record {
  address = place.ipaddr;
  sockets = λ n. some (n + 3);
  bind_ok = λ port. true;
  address_ok = λ address. true;
  connect_ok = true;
  affinity_ok = λ core. true;
  opened = λ file. true;
  send_ok = λ n. true;
  alive = λ n. true;
}

abbrev args : ServerArgs
args = record {
  protocol_id = orbitcache;
  server_id = pos (4 - dst_addr k7);
  dist = pos 0;
  workers = workers;
}
