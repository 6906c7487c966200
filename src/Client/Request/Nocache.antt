-- ===== src/Client/Request/Nocache.antt =====
-- What `tx_t` sends for NoCache: a well-formed request for the drawn key, to the worker that the key
-- belongs to.
use orbit_cache_public.Prelude.{
  ℕ, ◌+◌, ◌%◌, ◌^◌, ◌≤◌, ◌<◌, ◌≡◌, refl, ◌∙◌, List, [], ◌∷◌, ◌++◌, Bool, leb, if◌then◌else◌, get_or,
  arith, length, length-set, replicate, length-replicate, length-append, Bool-cases, inl, inr,
}
use orbit_cache_public.Text.{overwrite}
use orbit_cache_public.Text.Laws.{Spells, length-overwrite}
use orbit_cache_public.Key.Laws.{
  key_of, key_of-IsText, length-key_of, tostring_key-eq-key_of, tostring_key-IsKey,
}
use orbit_cache_public.Packet.{op_read, op_write, max_value_size, large_value}
use orbit_cache_public.Packet.Nocache.{
  NocacheHdr, IsNocacheHdr, blank_nocache, nocache_head, send_nocache,
}
use orbit_cache_public.Routing.{dst_ip, dst_addr, partition_of, nocache_base_port, max_workers}
use orbit_cache_public.Routing.Laws.{partition_of-lt}
use orbit_cache_public.Client.Request.{Draw, write_size, zero_value, nocache_base, request_nocache}
use orbit_cache_public.Client.Request.Laws.{write_size-le}

module _ (workers wratio : ℕ) where
  abbrev pub is_read : Draw → Bool
  is_read draw = leb wratio (draw.write_draw % 100)

  -- The header of a request for the drawn key, and the bytes of value that are sent with it.
  abbrev pub header : Draw → NocacheHdr
  header draw = record blank_nocache {
    op = if is_read draw then op_read else op_write;
    org_key = key_of draw.key_value ++ 0 ∷ [];
    par_id = partition_of workers (key_of draw.key_value);
    latency = draw.now_us;
    value =
        if is_read draw
        then blank_nocache.value
        else zero_value (write_size draw.size_draw) blank_nocache.value;
  }

  abbrev pub value_size : Draw → ℕ
  value_size draw = if is_read draw then 0 else write_size draw.size_draw

  module _ (some_worker : 1 ≤ workers) (few : workers ≤ max_workers) (draw : Draw)
      (now : draw.now_us < 2 ^ 32) where
    abbrev key : List ℕ
    key = key_of draw.key_value

    blank_key : length blank_nocache.org_key ≡ 16
    blank_key = length-replicate {A = ℕ} 16 0

    header_value : length (header draw).value ≡ max_value_size
    header_value = elim (Bool-cases (is_read draw)) [
      | inl e ↦ rw e (length-replicate {A = ℕ} max_value_size 0)
      | inr e ↦ rw e (
          length-set {0} (overwrite (replicate (write_size draw.size_draw) 0) blank_nocache.value)
            (write_size draw.size_draw) 0
          ∙ length-overwrite (replicate (write_size draw.size_draw) 0) blank_nocache.value
          ∙ length-replicate {A = ℕ} max_value_size 0)
    ]

    header-IsNocacheHdr : IsNocacheHdr (header draw)
    header-IsNocacheHdr = record {
      op_fits = ground arith;
      seq_fits = omega arith;
      cached_fits = omega arith;
      latency_fits = now;
      par_id_fits = omega (arith, partition_of-lt workers key some_worker few);
      key_length = omega (arith, length-append {0} key (0 ∷ []), length-key_of draw.key_value);
      value_length = header_value;
    }

    header-Spells : Spells key (header draw).org_key
    header-Spells = record { text = key_of-IsText draw.key_value; rest = []; split = refl }

    -- A client sends a well-formed NoCache request for the drawn key, a read without value or a write
    -- with 64 or 1024 bytes of it, to the host and the port of the worker that the key belongs to.
    pub request_nocache_lem :
        IsNocacheHdr (header draw)
        × Spells key (header draw).org_key
        × (value_size draw ≤ large_value)
        × (request_nocache workers wratio draw ≡ record {
          address = get_or dst_ip (dst_addr key) [];
          port = nocache_base_port + partition_of workers key;
          datagram = send_nocache (nocache_head + value_size draw) (header draw);
        })
    unfolding request_nocache nocache_base
    request_nocache_lem = (
      header-IsNocacheHdr,
      header-Spells,
      ground (arith, write_size-le draw.size_draw),
      elim (Bool-cases (is_read draw)) [
        | inl e ↦
            rw
              (
                e,
                tostring_key-IsKey draw.key_value blank_nocache.org_key blank_nocache.value
                    blank_key,
                tostring_key-eq-key_of draw.key_value blank_nocache.org_key blank_key,
              )
              refl
        | inr e ↦
            rw
              (
                e,
                tostring_key-IsKey draw.key_value blank_nocache.org_key blank_nocache.value
                    blank_key,
                tostring_key-eq-key_of draw.key_value blank_nocache.org_key blank_key,
              )
              refl
      ],
    )
