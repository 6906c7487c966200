-- ===== src/Client/Request.antt =====
-- client.c, `tx_t`: one request of each protocol, from the drawn key to the datagram.
-- The draws of `rand` and the clock are inputs.
pub mod Laws
pub mod Nocache
use orbit_cache_public.Prelude.{
  ℕ, ◌+◌, ◌%◌, List, [], ◌∷◌, ◌++◌, leb, u32, if◌then◌else◌, replicate, set, get_or,
}
use orbit_cache_public.Text.{until_nul, overwrite}
use orbit_cache_public.Hash.{hash64_str, hash64_str2}
use orbit_cache_public.Key.{tostring_key}
use orbit_cache_public.Packet.{op_read, op_write, small_value, large_value}
use orbit_cache_public.Packet.Endian.{htonl, htonll}
use orbit_cache_public.Packet.Orbitcache.{
  OrbitcacheHdr, blank_orbitcache, orbitcache_head, send_orbitcache,
}
use orbit_cache_public.Packet.Netcache.{NetcacheHdr, blank_netcache, netcache_head, send_netcache}
use orbit_cache_public.Packet.Nocache.{NocacheHdr, blank_nocache, nocache_head, send_nocache}
use orbit_cache_public.Routing.{
  dst_ip, dst_addr, partition_of, orbitcache_base_port, netcache_base_port, nocache_base_port,
}
use orbit_cache_public.Client.Seq.{SeqHdrs, seq_put}

abbrev pub lratio : ℕ
lratio = 18

-- What one round of the loop draws: the key, the two calls of `rand`, the time.
pub record Draw : Type 0 where
  pub key_value : ℕ
  pub write_draw : ℕ
  pub size_draw : ℕ
  pub now_us : ℕ

-- A call of `sendto`: the address and port it goes to, and the datagram.
pub record Sent : Type 0 where
  pub address : List ℕ
  pub port : ℕ
  pub datagram : List ℕ

-- The size of the value that a write carries.
abbrev pub write_size : ℕ → ℕ
write_size draw = if leb lratio (draw % 100) then small_value else large_value

-- `memset(SendBuffer.value, 0, size); SendBuffer.value[size] = '\0'`
abbrev pub zero_value : ℕ → List ℕ → List ℕ
zero_value size value = set (overwrite (replicate size 0) value) size 0

module _ (num_srv_workers wratio : ℕ) where
  -- The header up to the choice between a read and a write.
  orbitcache_base : Draw → ℕ → OrbitcacheHdr
  orbitcache_base draw seq_global =
      let org_key = tostring_key draw.key_value blank_orbitcache.org_key in
      let key = until_nul (org_key ++ blank_orbitcache.value) in
      record blank_orbitcache {
        org_key = org_key;
        hkey_hi = htonll (hash64_str key);
        hkey_lo = htonll (hash64_str2 key);
        par_id = partition_of num_srv_workers key;
        seq = htonl seq_global;
        latency = draw.now_us;
      }

  -- A draw of at least `WRATIO` is a read, and sends the head alone.
  orbitcache_message : Draw → ℕ → List ℕ
  orbitcache_message draw seq_global =
      let base = orbitcache_base draw seq_global in
      let size = write_size draw.size_draw in
      if leb wratio (draw.write_draw % 100)
      then send_orbitcache orbitcache_head (record base { op = op_read })
      else send_orbitcache (orbitcache_head + size)
          (record base { op = op_write; value = zero_value size base.value })

  -- One OrbitCache request: what is sent, the table of keys and `seq_global` after it.
  unfoldable pub request_orbitcache : Draw → SeqHdrs → ℕ → Sent × SeqHdrs × ℕ
  unfolding orbitcache_base orbitcache_message
  request_orbitcache draw seq_hdrs seq_global =
      let base = orbitcache_base draw seq_global in
      let key = until_nul (base.org_key ++ base.value) in
      (
        record {
          address = get_or dst_ip (dst_addr key) [];
          port = orbitcache_base_port + base.par_id;
          datagram = orbitcache_message draw seq_global;
        },
        seq_put seq_hdrs seq_global key,
        u32 (seq_global + 1),
      )

  netcache_base : Draw → NetcacheHdr
  netcache_base draw =
      let org_key = tostring_key draw.key_value blank_netcache.org_key in
      let key = until_nul (org_key ++ blank_netcache.value) in
      record blank_netcache {
        org_key = org_key;
        hkey_hi = htonll (hash64_str key);
        hkey_lo = htonll (hash64_str2 key);
        par_id = partition_of num_srv_workers key;
        latency = draw.now_us;
      }

  unfoldable pub request_netcache : Draw → Sent
  unfolding netcache_base
  request_netcache draw =
      let base = netcache_base draw in
      let key = until_nul (base.org_key ++ base.value) in
      let size = write_size draw.size_draw in
      record {
        address = get_or dst_ip (dst_addr key) [];
        port = netcache_base_port + base.par_id;
        datagram =
            if leb wratio (draw.write_draw % 100)
            then send_netcache netcache_head (record base { op = op_read })
            else send_netcache (netcache_head + size)
                (record base { op = op_write; value = zero_value size base.value });
      }

  nocache_base : Draw → NocacheHdr
  nocache_base draw =
      let org_key = tostring_key draw.key_value blank_nocache.org_key in
      let key = until_nul (org_key ++ blank_nocache.value) in
      record blank_nocache {
        org_key = org_key;
        par_id = partition_of num_srv_workers key;
        latency = draw.now_us;
      }

  unfoldable pub request_nocache : Draw → Sent
  unfolding nocache_base
  request_nocache draw =
      let base = nocache_base draw in
      let key = until_nul (base.org_key ++ base.value) in
      let size = write_size draw.size_draw in
      record {
        address = get_or dst_ip (dst_addr key) [];
        port = nocache_base_port + base.par_id;
        datagram =
            if leb wratio (draw.write_draw % 100)
            then send_nocache nocache_head (record base { op = op_read })
            else send_nocache (nocache_head + size)
                (record base { op = op_write; value = zero_value size base.value });
      }
