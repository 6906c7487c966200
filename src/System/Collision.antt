-- ===== src/System/Collision.antt =====
-- A hash collision: the switch answers a request with the packet of another key, the client asks
-- again by a correction, and the worker that the key belongs to answers.
use orbit_cache_public.Prelude.{
  ℕ, ◌+◌, ◌^◌, ◌≤◌, ◌<◌, ◌≡◌, ◌≢◌, refl, ap, ◌∙◌, List, [], ◌∷◌, ◌++◌, true, false, inr, arith,
  length, some, ltb, ◌==◌, length-append, length-replicate,
}
use orbit_cache_public.Text.{str_eq, until_nul}
use orbit_cache_public.Text.Laws.{
  Spells, str_eq_iff, strncpy_bytes-room, until_nul-Spells, until_nul-array,
}
use orbit_cache_public.Hash.{hash64_str, hash64_str2}
use orbit_cache_public.Key.Laws.{key_of, key_of-IsText, length-key_of}
use orbit_cache_public.Packet.{op_r_reply, op_crctn, max_value_size}
use orbit_cache_public.Packet.Endian.{htonl, ntohl, htonll, htonl-lt, htonll-lt}
use orbit_cache_public.Packet.Orbitcache.{
  OrbitcacheHdr, IsOrbitcacheHdr, blank_orbitcache, orbitcache_head, recv_orbitcache,
}
use orbit_cache_public.Routing.{partition_of, max_workers}
use orbit_cache_public.Routing.Laws.{partition_of-lt}
use orbit_cache_public.Run.{ok}
use orbit_cache_public.Store.HashTable.{Tommy}
use orbit_cache_public.Server.Memory.{Memory}
use orbit_cache_public.Server.Load.{Place}
use orbit_cache_public.Server.Load.Value.{drawn_value}
use orbit_cache_public.Server.Orbitcache.{serve_orbitcache}
use orbit_cache_public.Server.Orbitcache.Laws.{Asks, Answers, read_answer}
use orbit_cache_public.Client.Seq.{SeqHdrs, seq_get}
use orbit_cache_public.Client.Reply.{
  Stats, par_index, par_counters, from_cache, from_server, correction, receive_orbitcache,
}
use orbit_cache_public.Client.Reply.Laws.{check_collision_lem, par_index-lt}
use orbit_cache_public.System.Worker.{Listens, Carries, held, prepared-Answers}

-- The header of the correction for the key of `i`.
abbrev pub correction_request : ℕ → ℕ → ℕ → ℕ → OrbitcacheHdr
correction_request workers now seq2 i =
    let key = key_of i in
    record blank_orbitcache {
      op = op_crctn;
      seq = htonl seq2;
      hkey_hi = htonll (hash64_str key);
      hkey_lo = htonll (hash64_str2 key);
      par_id = partition_of workers key;
      latency = now;
      org_key = key ++ 0 ∷ [];
    }

module _ (workers : ℕ) (some_worker : 1 ≤ workers) (few : workers ≤ max_workers) (now : ℕ)
    (in_time : now < 2 ^ 32) (seq2 i : ℕ) where
  key_Spells : Spells (key_of i) (key_of i ++ 0 ∷ [])
  key_Spells = record { text = key_of-IsText i; rest = []; split = refl }

  correction-Asks : Asks (key_of i) (correction_request workers now seq2 i)
  correction-Asks = record {
    fits = record {
      op_fits = omega arith;
      seq_fits = htonl-lt seq2;
      hkey_hi_fits = htonll-lt (hash64_str (key_of i));
      hkey_lo_fits = htonll-lt (hash64_str2 (key_of i));
      flag_fits = omega arith;
      cached_fits = omega arith;
      latency_fits = in_time;
      par_id_fits = omega (arith, partition_of-lt workers (key_of i) some_worker few);
      key_length = omega (arith, length-append {0} (key_of i) (0 ∷ []), length-key_of i);
      value_length = length-replicate {A = ℕ} max_value_size 0;
    };
    spells = key_Spells;
  }

  pub correction-Carries :
      (array : List ℕ)
      → Spells (key_of i) array
      → Carries workers
          (key_of i)
          (correction_request workers now seq2 i)
          (correction workers now seq2 array)
  unfolding correction
  correction-Carries array spells =
      rw
        (
          until_nul-array spells,
          strncpy_bytes-room (key_of i) 16 (omega (arith, length-key_of i)),
          until_nul-Spells blank_orbitcache.value key_Spells,
        )
        (record { address = refl; port = refl; datagram = refl })

  -- A read reply that is marked as cached and brings another key than the one that the client asked for under
  -- its sequence number, which the table still has, is counted as one reply of the cache and one collision,
  -- and makes the client send one correction. The worker with the key, prepared without a failure of
  -- `malloc`, that listens where the correction goes answers it with the value of the key asked for, of which
  -- the last byte is a NUL; the client takes that answer as a reply of a server without sending again.
  pub collision_recovered :
      (tommy : Tommy) (memory memory' : Memory) (place : Place) (rand : ℕ → ℕ) (size : ℕ)
      (key_str : List ℕ)
      → memory.malloc_ok ≡ true
      → size ≤ 2 ^ 64
      → length key_str ≡ 16
      → i < size
      → (seq_hdrs : SeqHdrs) (reply : OrbitcacheHdr) (st : Stats) (array k' : List ℕ)
      → reply.op ≡ op_r_reply
      → reply.cached ≡ 1
      → ntohl reply.seq ≡ seq2
      → seq_get seq_hdrs seq2 ≡ some array
      → Spells (key_of i) array
      → length array ≡ 16
      → Spells k' reply.org_key
      → length reply.org_key ≡ 16
      → key_of i ≢ k'
      → Listens place workers (correction workers now seq2 array)
      → (buf : OrbitcacheHdr) → IsOrbitcacheHdr buf
      → (client : OrbitcacheHdr) (r r' t t' t'' : ℕ) (st' : Stats)
      → let answer = read_answer (drawn_value (rand i)) (correction_request workers now seq2 i) in
        let s = held tommy memory place rand size key_str in
        ((found : Stats) × (receive_orbitcache workers r r' now seq_hdrs reply st
            ≡ ok (found, correction workers now seq2 array ∷ []))
          × (found.collision_counter ≡ st.collision_counter + 1)
          × (found.pkt_counter_cache ≡ st.pkt_counter_cache + 1))
        × Answers tommy answer s (
            serve_orbitcache tommy memory' orbitcache_head
              (recv_orbitcache (correction workers now seq2 array).datagram buf)
              s)
        × ((done : Stats) × (receive_orbitcache workers t t' t'' seq_hdrs (answer client) st'
              ≡ ok (done, []))
            × (done.collision_counter ≡ st'.collision_counter)
            × (done.pkt_counter_server ≡ st'.pkt_counter_server + 1))
  unfolding receive_orbitcache
  collision_recovered tommy memory memory' place rand size key_str no_failure size_le key_length lt
        seq_hdrs reply st array k' op cached seq_eq found spells array_length spells' reply_length
        differ listens buf fits client r r' t t' t'' st' =
      (
        (_, detected, refl, refl),
        prepared-Answers tommy memory place rand size key_str no_failure size_le key_length workers
            i lt (correction_request workers now seq2 i) correction-Asks (inr refl)
            (correction workers now seq2 array) (correction-Carries array spells) listens memory'
            buf fits,
        (served, rw room refl, refl, refl),
      )
    where
      other : str_eq (key_of i) k' ≡ false
      other = ground (arith, str_eq_iff (key_of i) k')

      counted : Stats
      counted = from_cache workers r r' reply.latency (record st { rx_counter = st.rx_counter + 1 })

      detected :
          receive_orbitcache workers r r' now seq_hdrs reply st
          ≡ ok (
            record counted { collision_counter = st.collision_counter + 1 },
            correction workers now seq2 array ∷ [],
          )
      detected =
          let read : (reply.op == op_r_reply) ≡ true = ground (arith, op) in
          let marked : (reply.cached == 1) ≡ true = ground (arith, cached) in
          rw (read, marked)
            (check_collision_lem workers now seq_hdrs reply counted array
                (ap (seq_get seq_hdrs) seq_eq ∙ found) spells array_length spells' reply_length
              ∙ rw (other, seq_eq))

      answered_key : List ℕ
      answered_key =
          let answer =
            read_answer (drawn_value (rand i)) (correction_request workers now seq2 i) client in
          until_nul (answer.org_key ++ answer.value)

      served : Stats
      served =
          from_server workers t t' now answered_key (partition_of workers (key_of i))
            (record st' { rx_counter = st'.rx_counter + 1 })

      room :
          ltb (par_index workers answered_key (partition_of workers (key_of i))) par_counters ≡ true
      room =
          let low =
            par_index-lt workers (partition_of workers (key_of i)) answered_key few
              (partition_of-lt workers (key_of i) some_worker few) in
          ground (arith, low)
