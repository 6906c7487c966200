-- ===== src/Server/Nocache/Loop.antt =====
-- The handler of a Nocache worker keeps what the worker promises its clients.
use orbit_cache_public.Prelude.{
  ℕ, ◌+◌, ◌<◌, ◌≡◌, ◌≢◌, refl, sym, ap, subst, ◌∙◌, List, [], ◌∷◌, ◌++◌, true, take, length, some,
  ltb, arith,
}
use orbit_cache_public.Text.{overwrite}
use orbit_cache_public.Text.Laws.{until_nul-Spells, take-overwrite_nul, length-overwrite}
use orbit_cache_public.Key.Laws.{key_of}
use orbit_cache_public.Run.{Run, ok, fault, buffer_overflow}
use orbit_cache_public.Packet.{max_value_size, op_read, op_r_reply, op_write, op_w_reply}
use orbit_cache_public.Packet.Nocache.{
  NocacheHdr, IsNocacheHdr, nocache_head, send_nocache, recv_nocache-send_nocache,
  length-send_nocache, value-IsNocacheHdr, tags-IsNocacheHdr,
}
use orbit_cache_public.Store.HashTable.{Tommy}
use orbit_cache_public.Store.{Store, tommy_put, tommy_get}
use orbit_cache_public.Server.Memory.{Served, letters, Room}
use orbit_cache_public.Server.Memory.Laws.{length-letters, value_str-Room}
use orbit_cache_public.Server.Values.{Values, updated, Holds, tommy_put-Holds}
use orbit_cache_public.Server.Nocache.{key_str, serve_read, serve_write, serve_nocache}
use orbit_cache_public.Server.Loop.{Delivery, handle, nocache_protocol}
use orbit_cache_public.Server.Nocache.Spec.{
  Request, read_answer, write_answer, NocacheSpec, read, write, dropped,
}
use orbit_cache_public.Server.Loop.Refines.{Done, Meets}

module _ (tommy : Tommy) where
  abbrev Finished : List (NocacheHdr → NocacheHdr) → Values → Run (Served tommy NocacheHdr) → Type 0
  Finished = Done (nocache_protocol tommy) IsNocacheHdr

  module _ (d : Delivery) (i m : ℕ) (h : NocacheHdr) (q : Request i m h d) (buf : NocacheHdr)
      (fits : IsNocacheHdr buf) (s : Store tommy) where
    abbrev received : NocacheHdr
    received = record h { value = overwrite (take m h.value) buf.value }

    received-IsNocacheHdr : IsNocacheHdr received
    received-IsNocacheHdr =
        value-IsNocacheHdr q.fits (length-overwrite (take m h.value) buf.value ∙ fits.value_length)

    handle-received :
        handle (nocache_protocol tommy) d buf s
        ≡ serve_nocache tommy d.memory (nocache_head + m) received s
    handle-received =
        let some_bytes : ltb 0 (nocache_head + m) ≡ true = ground arith in
        rw
          (
            q.datagram,
            length-send_nocache h m q.fits q.small,
            recv_nocache-send_nocache h buf m q.fits fits q.small,
            some_bytes,
          )
          refl

    key_str-received : key_str received ≡ key_of i
    key_str-received = until_nul-Spells received.value q.spells

    drops :
        {values : Values}
        → Holds tommy values s
        → (h.op ≢ op_read) × (h.op ≢ op_write)
        → Finished [] values (serve_nocache tommy d.memory (nocache_head + m) received s)
    unfolding serve_nocache
    drops holds (no_read, no_write) = record {
      served = record { buf = received; hashlin = s; sent = [] };
      returns = ground arith;
      holds = holds;
      header = received-IsNocacheHdr;
      arrive = tt;
    }

    module _ {values : Values} (holds : Holds tommy values s) where
      module _ (v : List ℕ) (stored : values i ≡ some v) (read : h.op ≡ op_read) where
        found : tommy_get tommy s (key_str received) ≡ some v
        found = ap (tommy_get tommy s) key_str-received ∙ holds.holds i q.number ∙ stored

        abbrev reply : NocacheHdr
        reply = record received { op = op_r_reply; value = overwrite (v ++ 0 ∷ []) received.value }

        serve_read-ok :
            length v < max_value_size
            → serve_nocache tommy d.memory (nocache_head + m) received s
              ≡ ok (record {
                buf = reply;
                hashlin = s;
                sent = send_nocache (nocache_head + length v) reply ∷ [];
              })
        unfolding serve_nocache serve_read
        serve_read-ok room = rw (read, found) (ground arith)

        -- A value as long as the array leaves no room for the NUL that the server writes behind it.
        pub nocache_read-buffer_overflow :
            length v ≡ max_value_size
            → handle (nocache_protocol tommy) d buf s ≡ fault buffer_overflow
        unfolding serve_nocache serve_read
        nocache_read-buffer_overflow full = handle-received ∙ rw (read, found) (ground arith)

        received_length : length received.value ≡ max_value_size
        received_length = received-IsNocacheHdr.value_length

        reply-IsNocacheHdr : IsNocacheHdr reply
        reply-IsNocacheHdr =
            value-IsNocacheHdr (tags-IsNocacheHdr received-IsNocacheHdr (omega arith))
              (length-overwrite (v ++ 0 ∷ []) received.value ∙ received_length)

        done_read :
            length v < max_value_size
            → Finished (read_answer v h ∷ []) values (handle (nocache_protocol tommy) d buf s)
        done_read room = record {
          served = _;
          returns = handle-received ∙ serve_read-ok room;
          holds = holds;
          header = reply-IsNocacheHdr;
          arrive = (
            λ client c.
                recv_nocache-send_nocache reply client (length v) reply-IsNocacheHdr c (omega arith)
                ∙ ap (λ w. record h { op = op_r_reply; value = overwrite w client.value })
                    (take-overwrite_nul v received.value (omega (arith, received_length))),
            tt,
          );
        }

      serve_write-ok :
          h.op ≡ op_write
          → Room m d.memory
          → serve_nocache tommy d.memory (nocache_head + m) received s
            ≡ ok (record {
              buf = record received { op = op_w_reply };
              hashlin = tommy_put tommy true s (key_of i) (letters m);
              sent = send_nocache (nocache_head + 0) (record received { op = op_w_reply }) ∷ [];
            })
      unfolding serve_nocache serve_write
      serve_write-ok is_write room =
          rw
            (
              is_write,
              value_str-Room d.memory nocache_head m room (omega (arith, q.small)),
              key_str-received,
              room.malloc,
            )
            (ground arith)

      put-Holds :
          Holds tommy (updated values i (letters m)) (tommy_put tommy true s (key_of i) (letters m))
      put-Holds =
          tommy_put-Holds tommy values s i (letters m) holds q.number
            (omega (arith, length-letters m, q.small))

      done_write :
          h.op ≡ op_write
          → Room m d.memory
          → Finished
              (write_answer h ∷ [])
              (updated values i (letters m))
              (handle (nocache_protocol tommy) d buf s)
      done_write is_write room =
          let reply_fits : IsNocacheHdr (record received { op = op_w_reply }) =
            tags-IsNocacheHdr received-IsNocacheHdr (omega arith) in
          record {
            served = _;
            returns = handle-received ∙ serve_write-ok is_write room;
            holds = put-Holds;
            header = reply_fits;
            arrive = (
              λ client c.
                  recv_nocache-send_nocache (record received { op = op_w_reply }) client 0
                    reply_fits c (omega arith),
              tt,
            );
          }

  -- On a store that holds some values, whatever its buffer held before, the handler of a NoCache worker
  -- ends well for a datagram that the specification takes: a read of a key with a value shorter than the
  -- array, a write with room on the stack and a NUL behind its array, and a datagram of another type. The
  -- answer reaches every client as specified, and the store holds the values specified.
  pub nocache_handler-Done :
      {values values' : Values} {d : Delivery} {answer : List (NocacheHdr → NocacheHdr)}
      → NocacheSpec values d answer values'
      → (buf : NocacheHdr) → IsNocacheHdr buf
      → (s : Store tommy) → Holds tommy values s
      → Finished answer values' (handle (nocache_protocol tommy) d buf s)
  nocache_handler-Done (read values d i m h v q which e room) buf fits s holds =
      done_read d i m h q buf fits s holds v e which room
  nocache_handler-Done (write values d i m h q which room) buf fits s holds =
      done_write d i m h q buf fits s holds which room
  nocache_handler-Done (dropped values d i m h q which) buf fits s holds =
      subst (Finished [] values) (sym (handle-received d i m h q buf fits s))
        (drops d i m h q buf fits s holds which)

  pub nocache-Meets : Meets (nocache_protocol tommy) IsNocacheHdr NocacheSpec
  nocache-Meets = record {
    serves = λ spec buf fits s holds. nocache_handler-Done spec buf fits s holds;
  }
