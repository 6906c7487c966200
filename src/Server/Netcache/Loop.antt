-- ===== src/Server/Netcache/Loop.antt =====
-- The handler of a Netcache worker keeps what the worker promises its clients.
use orbit_cache_public.Prelude.{
  ℕ, ◌+◌, ◌<◌, ◌≡◌, ◌≢◌, refl, sym, ap, subst, ◌∙◌, List, [], ◌∷◌, ◌++◌, true, take, length,
  length-take, some, ltb, arith,
}
use orbit_cache_public.Text.{overwrite}
use orbit_cache_public.Text.Laws.{
  until_nul-Spells, take-overwrite, take-overwrite_nul, length-overwrite,
}
use orbit_cache_public.Key.Laws.{key_of}
use orbit_cache_public.Run.{Run, ok, fault, buffer_overflow}
use orbit_cache_public.Packet.{
  max_value_size, op_read, op_r_reply, op_write, op_w_reply, op_fetch, op_f_reply,
}
use orbit_cache_public.Packet.Netcache.{
  NetcacheHdr, IsNetcacheHdr, netcache_head, send_netcache, recv_netcache-send_netcache,
  length-send_netcache, value-IsNetcacheHdr, tags-IsNetcacheHdr,
}
use orbit_cache_public.Store.HashTable.{Tommy}
use orbit_cache_public.Store.{Store, tommy_put, tommy_get}
use orbit_cache_public.Server.Memory.{Served, letters, Room}
use orbit_cache_public.Server.Memory.Laws.{length-letters, value_str-Room}
use orbit_cache_public.Server.Values.{Values, updated, Holds, tommy_put-Holds}
use orbit_cache_public.Server.Netcache.{
  key_str, serve_read, serve_write, serve_fetch, serve_netcache,
}
use orbit_cache_public.Server.Loop.{Delivery, handle, netcache_protocol}
use orbit_cache_public.Server.Netcache.Spec.{
  Request, read_answer, write_answer, fetch_answer, NetcacheSpec, read, write, fetch, dropped,
}
use orbit_cache_public.Server.Loop.Refines.{Done, Meets}

module _ (tommy : Tommy) where
  abbrev Finished :
      List (NetcacheHdr → NetcacheHdr) → Values → Run (Served tommy NetcacheHdr) → Type 0
  Finished = Done (netcache_protocol tommy) IsNetcacheHdr

  module _ (d : Delivery) (i m : ℕ) (h : NetcacheHdr) (q : Request i m h d) (buf : NetcacheHdr)
      (fits : IsNetcacheHdr buf) (s : Store tommy) where
    abbrev received : NetcacheHdr
    received = record h { value = overwrite (take m h.value) buf.value }

    received-IsNetcacheHdr : IsNetcacheHdr received
    received-IsNetcacheHdr =
        value-IsNetcacheHdr q.fits (length-overwrite (take m h.value) buf.value ∙ fits.value_length)

    handle-received :
        handle (netcache_protocol tommy) d buf s
        ≡ serve_netcache tommy d.memory (netcache_head + m) received s
    handle-received =
        let some_bytes : ltb 0 (netcache_head + m) ≡ true = ground arith in
        rw
          (
            q.datagram,
            length-send_netcache h m q.fits q.small,
            recv_netcache-send_netcache h buf m q.fits fits q.small,
            some_bytes,
          )
          refl

    key_str-received : key_str received ≡ key_of i
    key_str-received = until_nul-Spells received.value q.spells

    drops :
        {values : Values}
        → Holds tommy values s
        → (h.op ≢ op_read) × (h.op ≢ op_write) × (h.op ≢ op_fetch)
        → Finished [] values (serve_netcache tommy d.memory (netcache_head + m) received s)
    unfolding serve_netcache
    drops holds (no_read, no_write, no_fetch) = record {
      served = record { buf = received; hashlin = s; sent = [] };
      returns = ground arith;
      holds = holds;
      header = received-IsNetcacheHdr;
      arrive = tt;
    }

    module _ {values : Values} (holds : Holds tommy values s) where
      module _ (v : List ℕ) (stored : values i ≡ some v) (read : h.op ≡ op_read) where
        found : tommy_get tommy s (key_str received) ≡ some v
        found = ap (tommy_get tommy s) key_str-received ∙ holds.holds i q.number ∙ stored

        abbrev reply : NetcacheHdr
        reply = record received { op = op_r_reply; value = overwrite (v ++ 0 ∷ []) received.value }

        serve_read-ok :
            length v < max_value_size
            → serve_netcache tommy d.memory (netcache_head + m) received s
              ≡ ok (record {
                buf = reply;
                hashlin = s;
                sent = send_netcache (netcache_head + length v) reply ∷ [];
              })
        unfolding serve_netcache serve_read
        serve_read-ok room = rw (read, found) (ground arith)

        -- A value as long as the array leaves no room for the NUL that the server writes behind it.
        netcache_read-buffer_overflow :
            length v ≡ max_value_size
            → handle (netcache_protocol tommy) d buf s ≡ fault buffer_overflow
        unfolding serve_netcache serve_read
        netcache_read-buffer_overflow full = handle-received ∙ rw (read, found) (ground arith)

        received_length : length received.value ≡ max_value_size
        received_length = received-IsNetcacheHdr.value_length

        reply-IsNetcacheHdr : IsNetcacheHdr reply
        reply-IsNetcacheHdr =
            value-IsNetcacheHdr
              (tags-IsNetcacheHdr received-IsNetcacheHdr (omega arith)
                received-IsNetcacheHdr.seq_fits)
              (length-overwrite (v ++ 0 ∷ []) received.value ∙ received_length)

        done_read :
            length v < max_value_size
            → Finished (read_answer v h ∷ []) values (handle (netcache_protocol tommy) d buf s)
        done_read room = record {
          served = _;
          returns = handle-received ∙ serve_read-ok room;
          holds = holds;
          header = reply-IsNetcacheHdr;
          arrive = (
            λ client c.
                recv_netcache-send_netcache reply client (length v) reply-IsNetcacheHdr c
                  (omega arith)
                ∙ ap (λ w. record h { op = op_r_reply; value = overwrite w client.value })
                    (take-overwrite_nul v received.value (omega (arith, received_length))),
            tt,
          );
        }

      serve_write-ok :
          h.op ≡ op_write
          → Room m d.memory
          → serve_netcache tommy d.memory (netcache_head + m) received s
            ≡ ok (record {
              buf = record received { op = op_w_reply };
              hashlin = tommy_put tommy true s (key_of i) (letters m);
              sent = send_netcache (netcache_head + 0) (record received { op = op_w_reply }) ∷ [];
            })
      unfolding serve_netcache serve_write
      serve_write-ok is_write room =
          rw
            (
              is_write,
              value_str-Room d.memory netcache_head m room (omega (arith, q.small)),
              key_str-received,
              room.malloc,
            )
            (ground arith)

      put-Holds :
          Holds tommy (updated values i (letters m)) (tommy_put tommy true s (key_of i) (letters m))
      put-Holds =
          tommy_put-Holds tommy values s i (letters m) holds q.number
            (omega (arith, length-letters m, q.small))

      done_write :
          h.op ≡ op_write
          → Room m d.memory
          → Finished
              (write_answer h ∷ [])
              (updated values i (letters m))
              (handle (netcache_protocol tommy) d buf s)
      done_write is_write room =
          let reply_fits : IsNetcacheHdr (record received { op = op_w_reply }) =
            tags-IsNetcacheHdr received-IsNetcacheHdr (omega arith)
              received-IsNetcacheHdr.seq_fits in
          record {
            served = _;
            returns = handle-received ∙ serve_write-ok is_write room;
            holds = put-Holds;
            header = reply_fits;
            arrive = (
              λ client c.
                  recv_netcache-send_netcache (record received { op = op_w_reply }) client 0
                    reply_fits c (omega arith),
              tt,
            );
          }

      abbrev fetched : NetcacheHdr
      fetched = record received { op = op_f_reply }

      abbrev confirmed : NetcacheHdr
      confirmed = record received { op = op_w_reply; seq = 0 }

      serve_fetch-ok :
          h.op ≡ op_fetch
          → Room m d.memory
          → serve_netcache tommy d.memory (netcache_head + m) received s
            ≡ ok (record {
              buf = confirmed;
              hashlin = tommy_put tommy true s (key_of i) (letters m);
              sent =
                  send_netcache (netcache_head + m) fetched
                  ∷ send_netcache (netcache_head + 0) confirmed
                  ∷ [];
            })
      unfolding serve_netcache serve_fetch
      serve_fetch-ok is_fetch room =
          rw
            (
              is_fetch,
              value_str-Room d.memory netcache_head m room (omega (arith, q.small)),
              key_str-received,
              room.malloc,
            )
            (ground arith)

      fetched_value : take m received.value ≡ take m h.value
      fetched_value =
          take-overwrite m (take m h.value) buf.value
            (omega (arith, length-take {0} m h.value, q.fits.value_length, q.small))
            (omega (arith, fits.value_length, q.small))

      done_fetch :
          h.op ≡ op_fetch
          → Room m d.memory
          → Finished
              (fetch_answer m h ∷ write_answer (record h { seq = 0 }) ∷ [])
              (updated values i (letters m))
              (handle (netcache_protocol tommy) d buf s)
      done_fetch is_fetch room =
          let fetched_fits : IsNetcacheHdr fetched =
            tags-IsNetcacheHdr received-IsNetcacheHdr (omega arith)
              received-IsNetcacheHdr.seq_fits in
          let confirmed_fits : IsNetcacheHdr confirmed =
            tags-IsNetcacheHdr received-IsNetcacheHdr (omega arith) (omega arith) in
          record {
            served = _;
            returns = handle-received ∙ serve_fetch-ok is_fetch room;
            holds = put-Holds;
            header = confirmed_fits;
            arrive = (
              λ client c.
                  recv_netcache-send_netcache fetched client m fetched_fits c q.small
                  ∙ ap (λ w. record h { op = op_f_reply; value = overwrite w client.value })
                      fetched_value,
              (
                λ client c.
                    recv_netcache-send_netcache confirmed client 0 confirmed_fits c (omega arith),
                tt,
              ),
            );
          }

  -- On a store that holds some values, whatever its buffer held before, the handler of a NetCache worker
  -- ends well for a datagram that the specification takes: a read of a key with a value shorter than the
  -- array, a write or a fetch with room on the stack and a NUL behind its array, and a datagram of another
  -- type. The answer, of two datagrams for a fetch, reaches every client as specified, and the store holds
  -- the values specified.
  pub netcache_handler-Done :
      {values values' : Values} {d : Delivery} {answer : List (NetcacheHdr → NetcacheHdr)}
      → NetcacheSpec values d answer values'
      → (buf : NetcacheHdr) → IsNetcacheHdr buf
      → (s : Store tommy) → Holds tommy values s
      → Finished answer values' (handle (netcache_protocol tommy) d buf s)
  netcache_handler-Done (read values d i m h v q which e room) buf fits s holds =
      done_read d i m h q buf fits s holds v e which room
  netcache_handler-Done (write values d i m h q which room) buf fits s holds =
      done_write d i m h q buf fits s holds which room
  netcache_handler-Done (fetch values d i m h q which room) buf fits s holds =
      done_fetch d i m h q buf fits s holds which room
  netcache_handler-Done (dropped values d i m h q which) buf fits s holds =
      subst (Finished [] values) (sym (handle-received d i m h q buf fits s))
        (drops d i m h q buf fits s holds which)

  pub netcache-Meets : Meets (netcache_protocol tommy) IsNetcacheHdr NetcacheSpec
  netcache-Meets = record {
    serves = λ spec buf fits s holds. netcache_handler-Done spec buf fits s holds;
  }
