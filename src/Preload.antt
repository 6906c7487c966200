-- ===== src/Preload.antt =====
-- preload.c: the packets that fill the cache of the switch before a run.
pub mod Laws
pub mod Main
use orbit_cache_public.Prelude.{
  ℕ, zero, suc, ◌+◌, ◌*◌, List, [], ◌∷◌, ◌++◌, leb, ◌==◌, if◌then◌else◌, replicate,
}
use orbit_cache_public.Text.{until_nul, overwrite}
use orbit_cache_public.Hash.{hash64_str, hash64_str2}
use orbit_cache_public.Key.{tostring_key}
use orbit_cache_public.Packet.{small_value, large_value, op_w_reply, fetching}
use orbit_cache_public.Packet.Endian.{htonll}
use orbit_cache_public.Packet.Orbitcache.{
  OrbitcacheHdr, blank_orbitcache, orbitcache_head, send_orbitcache,
}
use orbit_cache_public.Server.Load.{lratio}

-- `((double)i / (double)N) * 100 >= LRATIO`: with `N` below 2 ^ 31 the rounding of the quotient and
-- of the product does not change the test, since 0.18 * 100 is 18.0 in doubles.
abbrev pub value_size : ℕ → ℕ → ℕ
value_size n i = if leb (lratio * n) (i * 100) then small_value else large_value

-- The packet of key `i`: a write reply that asks the switch to cache it.
unfoldable pub preload_packet : ℕ → OrbitcacheHdr
preload_packet i =
    let org_key = tostring_key i blank_orbitcache.org_key in
    let key = until_nul (org_key ++ blank_orbitcache.value) in
    record blank_orbitcache {
      op = op_w_reply;
      flag = fetching;
      cached = 1;
      org_key = org_key;
      hkey_hi = htonll (hash64_str key);
      hkey_lo = htonll (hash64_str2 key);
    }

-- `memset(pkt.value, 0, value_size)` and `sendto`.
unfoldable pub preload_datagram : ℕ → ℕ → List ℕ
preload_datagram n i =
    let size = value_size n i in
    let pkt = preload_packet i in
    send_orbitcache (orbitcache_head + size)
      (record pkt { value = overwrite (replicate size 0) pkt.value })

pub record Preloaded : Type 0 where
  pub n_small : ℕ
  pub n_large : ℕ
  pub sent : List (List ℕ)

-- One round of the loop; `sendto` succeeds.
unfoldable pub preload_round : ℕ → ℕ → Preloaded → Preloaded
preload_round n i p = record {
  n_small = if value_size n i == small_value then p.n_small + 1 else p.n_small;
  n_large = if value_size n i == small_value then p.n_large else p.n_large + 1;
  sent = p.sent ++ preload_datagram n i ∷ [];
}

-- The rounds from `i` on, of the `left` to go.
pub preload_loop : ℕ → ℕ → ℕ → Preloaded → Preloaded
preload_loop zero n i p = p
preload_loop (suc left) n i p = preload_loop left n (i + 1) (preload_round n i p)

unfoldable pub preload : ℕ → Preloaded
preload n = preload_loop n n 0 (record { n_small = 0; n_large = 0; sent = [] })
