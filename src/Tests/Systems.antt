-- ===== src/Tests/Systems.antt =====
-- The theorems on a client and a worker together, for the seventh key of a data set of nine.
use orbit_cache_public.Prelude.{
  ℕ, some, ◌+◌, ◌*◌, ◌≡◌, ◌≢◌, refl, sym, ap, arith, [], ◌∷◌, ◌++◌, length, length-append,
  replicate,
}
use orbit_cache_public.Text.Laws.{Spells}
use orbit_cache_public.Key.Laws.{key_of, key_of-IsText, length-key_of, key_of-injective}
use orbit_cache_public.Run.{ok}
use orbit_cache_public.Packet.{op_r_reply}
use orbit_cache_public.Packet.Endian.{htonl, ntohl}
use orbit_cache_public.Packet.Orbitcache.{
  OrbitcacheHdr, blank_orbitcache, orbitcache_head, recv_orbitcache,
}
use orbit_cache_public.Store.HashTable.{list_tommy}
use orbit_cache_public.Server.Load.Value.{drawn_value}
use orbit_cache_public.Server.Orbitcache.{serve_orbitcache}
use orbit_cache_public.Server.Orbitcache.Laws.{Answers, read_answer}
use orbit_cache_public.Server.Startup.{nocache, netcache, orbitcache, worker_port}
use orbit_cache_public.Client.Request.{Sent, request_orbitcache, request_netcache, request_nocache}
use orbit_cache_public.Client.Request.Laws.{request_orbitcache-read}
use orbit_cache_public.Client.Reply.{Stats, initial_stats, correction, receive_orbitcache}
use orbit_cache_public.System.Worker.{Listens, held}
use orbit_cache_public.System.Ports.{Heard, request_port_lem}
use orbit_cache_public.System.Collision.{
  correction_request, correction-Carries, collision_recovered,
}
use orbit_cache_public.Tests.Fixtures.{
  memory, place, k7, k7_spelt, k7_array, workers, draw, table, table_at_5, blank_fits,
}

sent_request :
    (request_orbitcache workers 10 draw table 5).0.address ≡ place.ipaddr
    × ((request_orbitcache workers 10 draw table 5).0.port ≡ 3000 + place.partition_id)
sent_request =
    let sent =
      (request_orbitcache-read workers 10 (omega arith) (omega arith) draw 5 (omega arith) table
        (omega arith)).1 in
    (ap (λ (d : Sent). d.address) sent, ap (λ (d : Sent). d.port) sent)

place-Listens : Listens place workers (request_orbitcache workers 10 draw table 5).0
place-Listens = record { host = sym sent_request.0; port = sym sent_request.1; same_workers = refl }

k8_spelt : Spells (key_of 8) (key_of 8 ++ 0 ∷ [])
k8_spelt = record { text = key_of-IsText 8; rest = []; split = refl }

k8_array : length (key_of 8 ++ 0 ∷ []) ≡ 16
k8_array = omega (arith, length-append {0} (key_of 8) (0 ∷ []), length-key_of 8)

k7≢k8 : k7 ≢ key_of 8
k7≢k8 e = absurd (omega (arith, key_of-injective 7 8 (omega arith) (omega arith) e))

-- The reply from the switch brings the eighth key.
abbrev wrong_reply : OrbitcacheHdr
wrong_reply = record blank_orbitcache {
  op = op_r_reply;
  cached = 1;
  seq = htonl 5;
  org_key = key_of 8 ++ 0 ∷ [];
}

wrong_seq : ntohl wrong_reply.seq ≡ 5
unfolding ntohl htonl
wrong_seq = refl

corrected-Listens : Listens place workers (correction workers 2002 5 (k7 ++ 0 ∷ []))
corrected-Listens =
    let carried =
      correction-Carries workers (omega arith) (omega arith) 2002 (omega arith) 5 7 _ k7_spelt in
    record { host = sym carried.address; port = sym carried.port; same_workers = refl }

collision_recovered_example :
    ((found : Stats) × (receive_orbitcache workers 2000 2001 2002 table wrong_reply initial_stats
        ≡ ok (found, correction workers 2002 5 (k7 ++ 0 ∷ []) ∷ []))
      × (found.collision_counter ≡ initial_stats.collision_counter + 1)
      × (found.pkt_counter_cache ≡ initial_stats.pkt_counter_cache + 1))
    × Answers list_tommy
        (read_answer (drawn_value (7 * 7)) (correction_request workers 2002 5 7))
        (held list_tommy memory place (λ i. i * 7) 9 (replicate 16 1))
        (serve_orbitcache list_tommy memory orbitcache_head
          (recv_orbitcache (correction workers 2002 5 (k7 ++ 0 ∷ [])).datagram blank_orbitcache)
          (held list_tommy memory place (λ i. i * 7) 9 (replicate 16 1)))
    × ((done : Stats) × (receive_orbitcache workers 3000 3001 3002 table
            (read_answer
              (drawn_value (7 * 7))
              (correction_request workers 2002 5 7)
              blank_orbitcache)
            initial_stats
          ≡ ok (done, []))
        × (done.collision_counter ≡ initial_stats.collision_counter)
        × (done.pkt_counter_server ≡ initial_stats.pkt_counter_server + 1))
collision_recovered_example =
    collision_recovered workers (omega arith) (omega arith) 2002 (omega arith) 5 7 list_tommy memory
      memory place (λ i. i * 7) 9 (replicate 16 1) refl (omega arith) refl (omega arith) table
      wrong_reply initial_stats (k7 ++ 0 ∷ []) (key_of 8) refl refl wrong_seq table_at_5 k7_spelt
      k7_array k8_spelt k8_array k7≢k8 corrected-Listens blank_orbitcache blank_fits
      blank_orbitcache 2000 2001 3000 3001 3002 initial_stats

request_port_lem_example :
    Heard workers orbitcache (request_orbitcache workers 5 draw table 3).0.port
    × Heard workers nocache (request_nocache workers 5 draw).port
    × ((i : ℕ) → worker_port netcache i ≢ some (request_netcache workers 5 draw).port)
request_port_lem_example = request_port_lem workers 5 draw table 3 (omega arith) (omega arith)
