-- ===== src/Client/Reply.antt =====
-- client.c, `rx_t`: what a received datagram does to the counters and the logs of an Rx worker, and
-- the correction that it sends after a hash collision. The calls of `get_cur_us` are inputs.
-- The counters of replies are kept below 2 ^ 31 by the length of a run; they are plain numbers here. An
-- index behind the end of `global_par_counter` is a fault.
pub mod Laws
pub mod Lost
use orbit_cache_public.Prelude.{
  ℕ, ◌+◌, ◌-◌, ◌*◌, ◌^◌, List, [], ◌∷◌, ◌++◌, Bool, ◌||◌, ◌==◌, ltb, u32, Option, none, some,
  if◌then◌else◌, get_or,
}
use orbit_cache_public.Text.{until_nul, strncpy_bytes, strncmp_eq}
use orbit_cache_public.Run.{Run, ok, fault, null_pointer, buffer_overflow, or_fault, ◌>>=◌}
use orbit_cache_public.Hash.{hash64_str, hash64_str2}
use orbit_cache_public.Packet.{op_r_reply, op_w_reply, op_crctn, missed}
use orbit_cache_public.Packet.Endian.{htonl, ntohl, htonll}
use orbit_cache_public.Packet.Orbitcache.{
  OrbitcacheHdr, blank_orbitcache, orbitcache_head, send_orbitcache,
}
use orbit_cache_public.Packet.Netcache.{NetcacheHdr}
use orbit_cache_public.Packet.Nocache.{NocacheHdr}
use orbit_cache_public.Routing.{dst_ip, dst_addr, partition_of, max_workers, orbitcache_base_port}
use orbit_cache_public.Client.Seq.{SeqHdrs, key_size, seq_get}
use orbit_cache_public.Client.Request.{Sent}

abbrev max_srv : ℕ
max_srv = 8

-- `MAX_SRV * MAX_WORKERS`, the length of `global_par_counter`
abbrev pub par_counters : ℕ
par_counters = max_srv * max_workers

-- The counters of one worker, the shared `global_par_counter` below `par_counters`, and the lines of the three files.
pub record Stats : Type 0 where
  pub pkt_counter : ℕ
  pub pkt_counter_cache : ℕ
  pub pkt_counter_miss : ℕ
  pub pkt_counter_server : ℕ
  pub collision_counter : ℕ
  pub rx_counter : ℕ
  pub par_counter : ℕ → ℕ
  pub log : List ℕ
  pub log_cache : List ℕ
  pub log_server : List ℕ

abbrev pub initial_stats : Stats
initial_stats = record {
  pkt_counter = 0;
  pkt_counter_cache = 0;
  pkt_counter_miss = 0;
  pkt_counter_server = 0;
  collision_counter = 0;
  rx_counter = 0;
  par_counter = λ i. 0;
  log = [];
  log_cache = [];
  log_server = [];
}

-- `get_cur_us() - RecvBuffer.latency`, in `uint32_t`
abbrev pub elapsed : ℕ → ℕ → ℕ
elapsed now latency = u32 (now + 2 ^ 32 - latency)

abbrev pub bump : (ℕ → ℕ) → ℕ → ℕ → ℕ
bump counter index i = if i == index then counter i + 1 else counter i

-- A NoCache or NetCache datagram asks for no correction.
abbrev pub no_corrections : Run Stats → Run (Stats × List Sent)
no_corrections r = r >>= λ st. ok (st, [])

module _ (num_srv_workers : ℕ) where
  -- The index of `global_par_counter` for a key and the `par_id` of a reply.
  abbrev pub par_index : List ℕ → ℕ → ℕ
  par_index key par_id = num_srv_workers * dst_addr key + par_id

  -- `global_par_counter[..]++` has room for the index, and then the rest follows.
  abbrev pub in_counters {ℓ} : {A : Type ℓ} → List ℕ → ℕ → Run A → Run A
  in_counters key par_id rest =
      if ltb (par_index key par_id) par_counters then rest else fault buffer_overflow

  -- The lines and counters of a reply that a server sent.
  abbrev pub from_server : ℕ → ℕ → ℕ → List ℕ → ℕ → Stats → Stats
  from_server now now' latency key par_id st = record st {
    pkt_counter = st.pkt_counter + 1;
    pkt_counter_server = st.pkt_counter_server + 1;
    par_counter = bump st.par_counter (par_index key par_id);
    log = st.log ++ elapsed now latency ∷ [];
    log_server = st.log_server ++ elapsed now' latency ∷ [];
  }

  abbrev pub from_cache : ℕ → ℕ → ℕ → Stats → Stats
  from_cache now now' latency st = record st {
    pkt_counter = st.pkt_counter + 1;
    pkt_counter_cache = st.pkt_counter_cache + 1;
    log = st.log ++ elapsed now latency ∷ [];
    log_cache = st.log_cache ++ elapsed now' latency ∷ [];
  }

  -- A NoCache write reply has no line in the server's file.
  nocache_counts : ℕ → ℕ → NocacheHdr → Stats → Run Stats
  nocache_counts now now' buf st =
      let key = until_nul (buf.org_key ++ buf.value) in
      let served = from_server now now' buf.latency key buf.par_id st in
      if buf.op == op_r_reply
      then in_counters key buf.par_id (ok served)
      else if buf.op == op_w_reply
      then in_counters key buf.par_id (ok (record served { log_server = st.log_server }))
      else ok st

  unfoldable pub receive_nocache : ℕ → ℕ → NocacheHdr → Stats → Run Stats
  unfolding nocache_counts
  receive_nocache now now' buf st = nocache_counts now now' buf st >>= λ counted.
      ok (record counted { rx_counter = counted.rx_counter + 1 })

  netcache_counts : ℕ → ℕ → NetcacheHdr → Stats → Run Stats
  netcache_counts now now' buf st =
      let key = until_nul (buf.org_key ++ buf.value) in
      if buf.op == op_r_reply || buf.op == op_w_reply
      then if ltb 0 buf.cached
        then ok (from_cache now now' buf.latency st)
        else in_counters key buf.par_id (ok (from_server now now' buf.latency key buf.par_id st))
      else ok st

  unfoldable pub receive_netcache : ℕ → ℕ → NetcacheHdr → Stats → Run Stats
  unfolding netcache_counts
  receive_netcache now now' buf st = netcache_counts now now' buf st >>= λ counted.
      ok (record counted { rx_counter = counted.rx_counter + 1 })

  -- The correction request for the key that the client asked for under `seq2`.
  unfoldable pub correction : ℕ → ℕ → List ℕ → Sent
  correction now seq2 client_key =
      let org_key = strncpy_bytes key_size (until_nul client_key) in
      let key = until_nul (org_key ++ blank_orbitcache.value) in
      let par_id = partition_of num_srv_workers key in
      let request = record blank_orbitcache {
        op = op_crctn;
        seq = htonl seq2;
        hkey_hi = htonll (hash64_str key);
        hkey_lo = htonll (hash64_str2 key);
        par_id = par_id;
        latency = now;
        org_key = org_key;
      } in
      record {
        address = get_or dst_ip (dst_addr key) [];
        port = orbitcache_base_port + par_id;
        datagram = send_orbitcache orbitcache_head request;
      }

  -- A reply from the switch: the key that came is compared with the key that was asked for.
  -- `strncmp` reads through the NULL of a sequence number that the table has lost.
  unfoldable pub check_collision : ℕ → SeqHdrs → OrbitcacheHdr → Stats → Run (Stats × List Sent)
  check_collision now seq_hdrs buf st = do
    let seq2 = ntohl buf.seq
    client_key ← or_fault (seq_get seq_hdrs seq2) null_pointer
    if strncmp_eq key_size (until_nul client_key) (until_nul buf.org_key)
        then ok (st, [])
        else ok (
          record st { collision_counter = st.collision_counter + 1 },
          correction now seq2 client_key ∷ [],
        )

  -- An OrbitCache reply; `now''` is the clock for a correction.
  unfoldable pub receive_orbitcache :
      ℕ → ℕ → ℕ → SeqHdrs → OrbitcacheHdr → Stats → Run (Stats × List Sent)
  receive_orbitcache now now' now'' seq_hdrs buf st =
      let key = until_nul (buf.org_key ++ buf.value) in
      let st' = record st { rx_counter = st.rx_counter + 1 } in
      let served = from_server now now' buf.latency key buf.par_id st' in
      if buf.op == op_r_reply
      then if buf.cached == 1
        then check_collision now'' seq_hdrs buf (from_cache now now' buf.latency st')
        else if buf.cached == missed
        then in_counters key buf.par_id
            (ok (record served { pkt_counter_miss = st.pkt_counter_miss + 1 }, []))
        else in_counters key buf.par_id (ok (served, []))
      else if buf.op == op_w_reply
      then in_counters key buf.par_id (ok (served, []))
      else ok (st', [])
