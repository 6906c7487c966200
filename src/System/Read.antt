-- ===== src/System/Read.antt =====
-- A read of `client.c` against a worker of `server.c` that has prepared its data.
use orbit_cache_public.Prelude.{ℕ, ◌%◌, ◌^◌, ◌≤◌, ◌<◌, ◌≡◌, refl, ap, List, true, inl, length}
use orbit_cache_public.Packet.Orbitcache.{
  OrbitcacheHdr, IsOrbitcacheHdr, orbitcache_head, recv_orbitcache,
}
use orbit_cache_public.Routing.{max_workers}
use orbit_cache_public.Store.HashTable.{Tommy}
use orbit_cache_public.Server.Memory.{Memory}
use orbit_cache_public.Server.Load.{Place}
use orbit_cache_public.Server.Load.Value.{drawn_value}
use orbit_cache_public.Server.Orbitcache.{serve_orbitcache}
use orbit_cache_public.Server.Orbitcache.Laws.{Answers, read_answer}
use orbit_cache_public.Client.Seq.{SeqHdrs}
use orbit_cache_public.Client.Request.{Draw, Sent, request_orbitcache}
use orbit_cache_public.Client.Request.Laws.{read_request, request_orbitcache-read}
use orbit_cache_public.System.Worker.{Listens, held, prepared-Answers}

module _ (tommy : Tommy) (workers wratio : ℕ) (some_worker : 1 ≤ workers)
    (few : workers ≤ max_workers) where
  -- A read request for a key of the data set, sent by a client to the worker that listens there,
  -- which has prepared its data with the same number of workers, is answered: the client gets back
  -- its header as an `OP_R_REPLY` with the value of that key, cut as in a read.
  read_request-answered :
      (draw : Draw) (seq_hdrs : SeqHdrs) (seq_global size : ℕ)
      → draw.now_us < 2 ^ 32
      → wratio ≤ draw.write_draw % 100
      → draw.key_value < size
      → size ≤ 2 ^ 64
      → (memory memory' : Memory) (place : Place) (rand : ℕ → ℕ) (key_str : List ℕ)
      → memory.malloc_ok ≡ true
      → length key_str ≡ 16
      → Listens place workers (request_orbitcache workers wratio draw seq_hdrs seq_global).0
      → (buf : OrbitcacheHdr) → IsOrbitcacheHdr buf
      → let s = held tommy memory place rand size key_str in
        Answers tommy
          (read_answer (drawn_value (rand draw.key_value)) (read_request workers draw seq_global))
          s
          (serve_orbitcache tommy memory' orbitcache_head
            (recv_orbitcache
              (request_orbitcache workers wratio draw seq_hdrs seq_global).0.datagram
              buf)
            s)
  read_request-answered draw seq_hdrs seq_global size now read key_lt size_le memory memory' place
        rand key_str no_failure key_length listens buf fits =
      let (asks, sent) =
        request_orbitcache-read workers wratio some_worker few draw seq_global now seq_hdrs read in
      prepared-Answers tommy memory place rand size key_str no_failure size_le key_length workers
        draw.key_value key_lt (read_request workers draw seq_global) asks (inl refl)
        (request_orbitcache workers wratio draw seq_hdrs seq_global).0
        (record {
          address = ap (λ (d : Sent). d.address) sent;
          port = ap (λ (d : Sent). d.port) sent;
          datagram = ap (λ (d : Sent). d.datagram) sent;
        })
        listens memory' buf fits
