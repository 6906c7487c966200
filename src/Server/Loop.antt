-- ===== src/Server/Loop.antt =====
-- server.c, the receive loop of a worker in each of the three protocols, with `DYNAMIC` 0: the receive
-- limit, the datagram that `recvfrom` takes from the socket, and its handler.
pub mod Order
pub mod Refines
use orbit_cache_public.Prelude.{
  ℕ, List, [], ◌∷◌, ◌++◌, Bool, false, length, take, ltb, if◌then◌else◌,
}
use orbit_cache_public.Run.{Run, ok, ◌>>=◌}
use orbit_cache_public.Store.HashTable.{Tommy}
use orbit_cache_public.Store.{Store}
use orbit_cache_public.Packet.Nocache.{NocacheHdr, sizeof_nocache, recv_nocache}
use orbit_cache_public.Packet.Netcache.{NetcacheHdr, sizeof_netcache, recv_netcache}
use orbit_cache_public.Packet.Orbitcache.{OrbitcacheHdr, sizeof_orbitcache, recv_orbitcache}
use orbit_cache_public.Server.Memory.{Memory, Served}
use orbit_cache_public.Server.Window.{Window, Round, refresh, turn}
use orbit_cache_public.Server.Nocache.{serve_nocache}
use orbit_cache_public.Server.Netcache.{serve_netcache}
use orbit_cache_public.Server.Orbitcache.{serve_orbitcache}

-- A datagram in the socket, and what its handler finds on the stack.
pub record Delivery : Type 0 where
  pub datagram : List ℕ
  pub memory : Memory

module _ (tommy : Tommy) (Hdr : Type 0) where
  -- What the three loops differ in: `RecvBuffer` with its size, and the handler.
  pub record Protocol : Type 0 where
    pub size : ℕ
    pub recv : List ℕ → Hdr → Hdr
    pub serve : Memory → ℕ → Hdr → Store tommy → Run (Served tommy Hdr)

  -- The variables of the loop.
  pub record Station : Type 0 where
    pub window : Window
    pub buf : Hdr
    pub hashlin : Store tommy

  -- After some rounds: the datagrams still in the socket, and those sent for each one that was taken.
  pub record Progress : Type 0 where
    pub station : Station
    pub queue : List Delivery
    pub sent : List (List (List ℕ))

module _ {tommy : Tommy} {Hdr : Type 0} (p : Protocol tommy Hdr) where
  -- `n = recvfrom(sock, &RecvBuffer, sizeof(RecvBuffer), ..)`, and the handler if `n > 0`.
  abbrev pub bytes_of : Delivery → ℕ
  bytes_of d = length (take p.size d.datagram)

  abbrev pub handle : Delivery → Hdr → Store tommy → Run (Served tommy Hdr)
  handle d buf hashlin =
      if ltb 0 (bytes_of d)
      then p.serve d.memory (bytes_of d) (p.recv d.datagram buf) hashlin
      else ok (record { buf = buf; hashlin = hashlin; sent = [] })

  -- A round of the loop. `arrived` is whether a datagram is there when `recvfrom` looks; one of no bytes is
  -- not counted.
  unfoldable pub receive : Round → List Delivery → Station tommy Hdr → Run (Progress tommy Hdr)
  receive r [] st =
      let (w, _) = turn (record r { arrived = false }) st.window in
      ok (record { station = record st { window = w }; queue = []; sent = [] })
  receive r (d ∷ queue) st =
      let (w, taken) = turn r st.window in
      if taken
      then (handle d st.buf st.hashlin >>= λ served. ok (record {
        station = record {
          window = if ltb 0 (bytes_of d) then w else refresh r st.window;
          buf = served.buf;
          hashlin = served.hashlin;
        };
        queue = queue;
        sent = served.sent ∷ [];
      }))
      else ok (record { station = record st { window = w }; queue = d ∷ queue; sent = [] })

  -- As many rounds as there are readings of the clock.
  unfoldable pub receive_loop :
      List Round → List Delivery → Station tommy Hdr → Run (Progress tommy Hdr)
  receive_loop [] queue st = ok (record { station = st; queue = queue; sent = [] })
  receive_loop (r ∷ rs) queue st = do
    first ← receive r queue st
    others ← receive_loop rs first.queue first.station
    ok (record others { sent = first.sent ++ others.sent })

module _ (tommy : Tommy) where
  abbrev pub nocache_protocol : Protocol tommy NocacheHdr
  nocache_protocol = record {
    size = sizeof_nocache;
    recv = recv_nocache;
    serve = serve_nocache tommy;
  }

  abbrev pub netcache_protocol : Protocol tommy NetcacheHdr
  netcache_protocol = record {
    size = sizeof_netcache;
    recv = recv_netcache;
    serve = serve_netcache tommy;
  }

  abbrev pub orbitcache_protocol : Protocol tommy OrbitcacheHdr
  orbitcache_protocol = record {
    size = sizeof_orbitcache;
    recv = recv_orbitcache;
    serve = serve_orbitcache tommy;
  }
