-- ===== src/Client/Request/Laws.antt =====
-- What `tx_t` sends for OrbitCache: a well-formed request for the drawn key, to the worker that the
-- key belongs to.
use orbit_cache_public.Prelude.{
  ℕ, ◌+◌, ◌%◌, ◌^◌, ◌≤◌, ◌<◌, ◌≡◌, refl, ap, ◌∙◌, List, [], ◌∷◌, ◌++◌, leb, true, false, get_or,
  arith, length, length-set, replicate, length-replicate, length-append,
}
use orbit_cache_public.Text.{overwrite}
use orbit_cache_public.Text.Laws.{length-overwrite}
use orbit_cache_public.Hash.{hash64_str, hash64_str2}
use orbit_cache_public.Key.Laws.{
  key_of, key_of-IsText, length-key_of, tostring_key-eq-key_of, tostring_key-IsKey,
}
use orbit_cache_public.Packet.{op_read, op_write, max_value_size, large_value}
use orbit_cache_public.Packet.Endian.{htonl, htonll, htonl-lt, htonll-lt}
use orbit_cache_public.Packet.Orbitcache.{
  OrbitcacheHdr, blank_orbitcache, orbitcache_head, send_orbitcache, value-IsOrbitcacheHdr,
  tags-IsOrbitcacheHdr,
}
use orbit_cache_public.Routing.{dst_ip, dst_addr, partition_of, orbitcache_base_port, max_workers}
use orbit_cache_public.Routing.Laws.{partition_of-lt}
use orbit_cache_public.Server.Orbitcache.Laws.{Asks}
use orbit_cache_public.Client.Seq.{SeqHdrs}
use orbit_cache_public.Client.Request.{
  Draw, write_size, zero_value, orbitcache_base, orbitcache_message, request_orbitcache,
}

-- A read request for the drawn key.
abbrev pub read_request : ℕ → Draw → ℕ → OrbitcacheHdr
read_request workers draw seq_global =
    let key = key_of draw.key_value in
    record blank_orbitcache {
      op = op_read;
      org_key = key ++ 0 ∷ [];
      hkey_hi = htonll (hash64_str key);
      hkey_lo = htonll (hash64_str2 key);
      par_id = partition_of workers key;
      seq = htonl seq_global;
      latency = draw.now_us;
    }

-- A write request for the drawn key, with as many zero bytes as the drawn size.
abbrev pub write_request : ℕ → Draw → ℕ → OrbitcacheHdr
write_request workers draw seq_global = record (read_request workers draw seq_global) {
  op = op_write;
  value = zero_value (write_size draw.size_draw) blank_orbitcache.value;
}

pub write_size-le : (draw : ℕ) → write_size draw ≤ large_value
write_size-le draw = ground arith

module _ (workers wratio : ℕ) (some_worker : 1 ≤ workers) (few : workers ≤ max_workers) where
  module _ (draw : Draw) (seq_global : ℕ) (now : draw.now_us < 2 ^ 32) where
    abbrev key : List ℕ
    key = key_of draw.key_value

    blank_key : length blank_orbitcache.org_key ≡ 16
    blank_key = length-replicate {A = ℕ} 16 0

    base-eq-read_request :
        record (orbitcache_base workers wratio draw seq_global) { op = op_read }
        ≡ read_request workers draw seq_global
    unfolding orbitcache_base
    base-eq-read_request = rw (
      tostring_key-IsKey draw.key_value blank_orbitcache.org_key blank_orbitcache.value blank_key,
      tostring_key-eq-key_of draw.key_value blank_orbitcache.org_key blank_key,
    )

    read_request-Asks : Asks key (read_request workers draw seq_global)
    read_request-Asks = record {
      fits = record {
        op_fits = omega arith;
        seq_fits = htonl-lt seq_global;
        hkey_hi_fits = htonll-lt (hash64_str key);
        hkey_lo_fits = htonll-lt (hash64_str2 key);
        flag_fits = omega arith;
        cached_fits = omega arith;
        latency_fits = now;
        par_id_fits = omega (arith, partition_of-lt workers key some_worker few);
        key_length = omega (arith, length-append {0} key (0 ∷ []), length-key_of draw.key_value);
        value_length = length-replicate {A = ℕ} max_value_size 0;
      };
      spells = record { text = key_of-IsText draw.key_value; rest = []; split = refl };
    }

    write_request-Asks : Asks key (write_request workers draw seq_global)
    write_request-Asks = record {
      fits =
          value-IsOrbitcacheHdr
            (tags-IsOrbitcacheHdr read_request-Asks.fits (omega (arith, read_request-Asks.fits)))
            (length-set {0}
                (overwrite (replicate (write_size draw.size_draw) 0) blank_orbitcache.value)
                (write_size draw.size_draw) 0
              ∙ length-overwrite (replicate (write_size draw.size_draw) 0) blank_orbitcache.value
              ∙ length-replicate {A = ℕ} max_value_size 0);
      spells = read_request-Asks.spells;
    }

    message-write :
        draw.write_draw % 100 < wratio
        → orbitcache_message workers wratio draw seq_global
          ≡ send_orbitcache
              (orbitcache_head + write_size draw.size_draw)
              (write_request workers draw seq_global)
    unfolding orbitcache_message orbitcache_base
    message-write write =
        let test : leb wratio (draw.write_draw % 100) ≡ false = ground arith in
        rw test (
          ap
            (λ (h : OrbitcacheHdr).
              send_orbitcache (orbitcache_head + write_size draw.size_draw) (record h {
                op = op_write;
                value = zero_value (write_size draw.size_draw) blank_orbitcache.value;
              }))
            base-eq-read_request)

    message-read :
        wratio ≤ draw.write_draw % 100
        → orbitcache_message workers wratio draw seq_global
          ≡ send_orbitcache orbitcache_head (read_request workers draw seq_global)
    unfolding orbitcache_message
    message-read read =
        let test : leb wratio (draw.write_draw % 100) ≡ true = ground arith in
        rw test (ap (send_orbitcache orbitcache_head) base-eq-read_request)

    -- A draw that is no write sends a well-formed read request for the drawn key, with the sequence
    -- number of the moment, to the host and the port of the worker that the key belongs to.
    pub request_orbitcache-read :
        (seq_hdrs : SeqHdrs)
        → wratio ≤ draw.write_draw % 100
        → Asks key (read_request workers draw seq_global)
          × ((request_orbitcache workers wratio draw seq_hdrs seq_global).0 ≡ record {
            address = get_or dst_ip (dst_addr key) [];
            port = orbitcache_base_port + partition_of workers key;
            datagram = send_orbitcache orbitcache_head (read_request workers draw seq_global);
          })
    unfolding request_orbitcache
    request_orbitcache-read seq_hdrs read = (
      read_request-Asks,
      rw (
        message-read read,
        tostring_key-IsKey draw.key_value blank_orbitcache.org_key blank_orbitcache.value blank_key,
      ),
    )

    -- A draw that is a write sends a well-formed write request for the drawn key, with 64 or 1024 bytes of
    -- value, to the same worker.
    pub request_orbitcache-write :
        (seq_hdrs : SeqHdrs)
        → draw.write_draw % 100 < wratio
        → Asks key (write_request workers draw seq_global)
          × ((request_orbitcache workers wratio draw seq_hdrs seq_global).0 ≡ record {
            address = get_or dst_ip (dst_addr key) [];
            port = orbitcache_base_port + partition_of workers key;
            datagram =
                send_orbitcache
                  (orbitcache_head + write_size draw.size_draw)
                  (write_request workers draw seq_global);
          })
    unfolding request_orbitcache
    request_orbitcache-write seq_hdrs write = (
      write_request-Asks,
      rw (
        message-write write,
        tostring_key-IsKey draw.key_value blank_orbitcache.org_key blank_orbitcache.value blank_key,
      ),
    )
