-- ===== src/Preload/Main.antt =====
-- preload.c, `main`: the arguments, the socket, and the loop with its calls. A `return` of `main`
-- with the status 1 is an exit.
pub mod Laws
use orbit_cache_public.Prelude.{
  ℕ, zero, suc, ◌+◌, List, [], ◌∷◌, not, leb, ltb, if◌then◌else◌, get_or, length,
}
use orbit_cache_public.Prelude.Int.{ℤ, pos, pos_part, ltb_ℤ}
use orbit_cache_public.Text.Number.{atoi}
use orbit_cache_public.Os.{
  Arg, num, txt, Call, printf, eprintf, perror, udp_socket, setsockopt, bind, sendto, close, usleep,
  Host, Prog, returns, exits, calls, ◌>>=◌, ◌>>◌, does, fails, require, opens,
}
use orbit_cache_public.Packet.{small_value, large_value}
use orbit_cache_public.Routing.{dst_ip, orbitcache_base_port}
use orbit_cache_public.Server.Load.{lratio}
use orbit_cache_public.Preload.{preload_datagram, Preloaded, preload_round}

-- `NUM_HOTKEY`
abbrev pub num_hotkey : ℕ
num_hotkey = 128

abbrev pub per_pkt_us : ℕ
per_pkt_us = 10

-- The number of items, as it is before the test.
abbrev pub item_count : List (List ℕ) → ℤ
item_count argv = if leb 2 (length argv) then atoi (get_or argv 1 []) else pos num_hotkey

abbrev pub target_ip : List (List ℕ) → List ℕ
target_ip argv = if leb 3 (length argv) then get_or argv 2 [] else get_or dst_ip 0 []

unfoldable pub read_items : List (List ℕ) → Prog ℕ
read_items argv = do
  require (ltb_ℤ (pos 0) (item_count argv))
      (eprintf "preload: invalid N=%s\n" (txt (get_or argv 1 []) ∷ []) ∷ [])
  require (not (ltb 3 (length argv)))
      (eprintf "Usage: %s [N] [target_ip]\n" (txt (get_or argv 0 []) ∷ []) ∷ [])
  returns (pos_part (item_count argv))

-- The socket, bound to the port that the switch looks for, and the address that it sends to.
unfoldable pub open_socket : Host → List ℕ → Prog ℕ
open_socket host target = do
  does udp_socket
  sock ← opens (host.sockets 0) (perror "preload: socket" ∷ [])
  does (setsockopt sock "SO_REUSEADDR")
  does (setsockopt sock "SO_REUSEPORT")
  does (bind sock orbitcache_base_port)
  require (host.bind_ok orbitcache_base_port) (perror "preload: bind src port" ∷ close sock ∷ [])
  require (host.address_ok target)
      (eprintf "preload: bad target_ip %s\n" (txt target ∷ []) ∷ close sock ∷ [])
  returns sock

-- The loop, from the item `i` on, with `left` of the `n` items to go.
unfoldable pub send_items : Host → ℕ → List ℕ → ℕ → ℕ → ℕ → Preloaded → Prog Preloaded
send_items host sock target zero n i p = returns p
send_items host sock target (suc left) n i p = do
  does (sendto sock target (orbitcache_base_port + 1) (preload_datagram n i))
  require (host.send_ok i) (perror "preload: sendto" ∷ close sock ∷ [])
  does (usleep per_pkt_us)
  send_items host sock target left n (i + 1) (preload_round n i p)

-- After the arguments.
unfoldable pub install : Host → List ℕ → ℕ → Prog ℕ
install host target n = do
  does (
      printf "[preload] installing %d items (small=%dB, large=%dB, LRATIO=%d%%) via %s:%d\n" (
        num n
        ∷ num small_value
        ∷ num large_value
        ∷ num lratio
        ∷ txt target
        ∷ num (orbitcache_base_port + 1)
        ∷ []))
  sock ← open_socket host target
  p ← send_items host sock target n n 0 (record { n_small = 0; n_large = 0; sent = [] })
  does (
      printf "[preload] done: %d items (small=%d, large=%d)\n"
        (num n ∷ num p.n_small ∷ num p.n_large ∷ []))
  does (close sock)
  returns 0

unfoldable pub preload_main : Host → List (List ℕ) → Prog ℕ
preload_main host argv = do n ← read_items argv; install host (target_ip argv) n
