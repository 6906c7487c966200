-- ===== src/Server/Orbitcache/Loop.antt =====
-- The handler of an OrbitCache worker keeps what the worker promises its clients.
use orbit_cache_public.Prelude.{
  ℕ, ◌+◌, ◌≡◌, ◌≢◌, refl, sym, subst, ◌∙◌, ◌⊎◌, List, [], ◌∷◌, true, take, length-take, some, ltb,
  arith, append-nil, ◌++◌,
}
use orbit_cache_public.Text.{until_nul, overwrite}
use orbit_cache_public.Text.Laws.{take-overwrite, length-overwrite}
use orbit_cache_public.Key.Laws.{key_of}
use orbit_cache_public.Run.{Run}
use orbit_cache_public.Packet.{op_read, op_write, op_crctn, op_fetch}
use orbit_cache_public.Packet.Orbitcache.{
  OrbitcacheHdr, IsOrbitcacheHdr, orbitcache_head, recv_orbitcache-send_orbitcache,
  length-send_orbitcache, value-IsOrbitcacheHdr,
}
use orbit_cache_public.Store.HashTable.{Tommy}
use orbit_cache_public.Store.{Store, tommy_put}
use orbit_cache_public.Server.Memory.{Served, letters, Room}
use orbit_cache_public.Server.Memory.Laws.{length-letters}
use orbit_cache_public.Server.Values.{Values, updated, Holds, tommy_put-Holds}
use orbit_cache_public.Server.Orbitcache.{serve_orbitcache}
use orbit_cache_public.Server.Orbitcache.Laws.{
  Asks, read_answer, Answers, read-Answers, fetch-Answers,
}
use orbit_cache_public.Server.Orbitcache.Write.{write_answer, Stores, write-Stores}
use orbit_cache_public.Server.Loop.{Delivery, handle, orbitcache_protocol}
use orbit_cache_public.Server.Orbitcache.Spec.{
  Request, fetch_answer, OrbitcacheSpec, read, fetch, write, dropped,
}
use orbit_cache_public.Server.Loop.Refines.{Arrive, Done, Meets}

module _ (tommy : Tommy) where
  abbrev Finished :
      List (OrbitcacheHdr → OrbitcacheHdr) → Values → Run (Served tommy OrbitcacheHdr) → Type 0
  Finished = Done (orbitcache_protocol tommy) IsOrbitcacheHdr

  Answers-Done :
      {a : OrbitcacheHdr → OrbitcacheHdr} {s : Store tommy} {r : Run (Served tommy OrbitcacheHdr)}
      {values : Values}
      → Answers tommy a s r
      → Holds tommy values s
      → Finished (a ∷ []) values r
  Answers-Done {a} {values = values} ans h = record {
    served = ans.served;
    returns = ans.returns;
    holds = subst (Holds tommy values) (sym ans.same_store) h;
    header = ans.header;
    arrive =
        subst (Arrive (orbitcache_protocol tommy) IsOrbitcacheHdr (a ∷ [])) (sym ans.one_datagram)
          (ans.received, tt);
  }

  Stores-Done :
      {k v : List ℕ} {a a' : OrbitcacheHdr → OrbitcacheHdr} {s : Store tommy}
      {r : Run (Served tommy OrbitcacheHdr)} {values : Values}
      → Stores tommy k v a s r
      → ((client : OrbitcacheHdr) → a client ≡ a' client)
      → Holds tommy values (tommy_put tommy true s k v)
      → Finished (a' ∷ []) values r
  Stores-Done {a' = a'} {values = values} st same h = record {
    served = st.served;
    returns = st.returns;
    holds = subst (Holds tommy values) (sym st.put) h;
    header = st.header;
    arrive =
        subst (Arrive (orbitcache_protocol tommy) IsOrbitcacheHdr (a' ∷ [])) (sym st.one_datagram)
          ((λ client c. st.received client c ∙ same client), tt);
  }

  module _ (d : Delivery) (i m : ℕ) (h : OrbitcacheHdr) (q : Request i m h d) (buf : OrbitcacheHdr)
      (fits : IsOrbitcacheHdr buf) (s : Store tommy) where
    abbrev received : OrbitcacheHdr
    received = record h { value = overwrite (take m h.value) buf.value }

    received-Asks : Asks (key_of i) received
    received-Asks = record {
      fits =
          value-IsOrbitcacheHdr q.asks.fits
            (length-overwrite (take m h.value) buf.value ∙ fits.value_length);
      spells = q.asks.spells;
    }

    handle-received :
        handle (orbitcache_protocol tommy) d buf s
        ≡ serve_orbitcache tommy d.memory (orbitcache_head + m) received s
    handle-received =
        let some_bytes : ltb 0 (orbitcache_head + m) ≡ true = ground arith in
        rw
          (
            q.datagram,
            length-send_orbitcache h m q.asks.fits q.small,
            recv_orbitcache-send_orbitcache h buf m q.asks.fits fits q.small,
            some_bytes,
          )
          refl

    write_answer-received :
        (client : OrbitcacheHdr) → write_answer m received client ≡ write_answer m h client
    write_answer-received client =
        rw
          (take-overwrite m (take m h.value) buf.value
            (omega (arith, length-take {0} m h.value, q.asks.fits.value_length, q.small))
            (omega (arith, fits.value_length, q.small)))
          refl

    drops :
        {values : Values}
        → Holds tommy values s
        → (h.op ≢ op_read) × (h.op ≢ op_crctn) × (h.op ≢ op_fetch) × (h.op ≢ op_write)
        → Finished [] values (serve_orbitcache tommy d.memory (orbitcache_head + m) received s)
    unfolding serve_orbitcache
    drops holds (no_read, no_crctn, no_fetch, no_write) = record {
      served = record { buf = received; hashlin = s; sent = [] };
      returns = ground arith;
      holds = holds;
      header = received-Asks.fits;
      arrive = tt;
    }

    stored_letters :
        until_nul d.memory.after_value ≡ []
        → letters m ++ until_nul d.memory.after_value ≡ letters m
    stored_letters ends = rw (ends, append-nil (letters m)) refl

    module _ {values : Values} (holds : Holds tommy values s) where
      done_read :
          (v : List ℕ)
          → (h.op ≡ op_read) ⊎ (h.op ≡ op_crctn)
          → values i ≡ some v
          → Finished (read_answer v h ∷ []) values (handle (orbitcache_protocol tommy) d buf s)
      done_read v which e = subst (Finished (read_answer v h ∷ []) values) (sym handle-received) (
          Answers-Done
            (read-Answers tommy d.memory received received-Asks s (orbitcache_head + m)
              (holds.holds i q.number ∙ e) (holds.small i v e) which)
            holds)

      done_fetch :
          (v : List ℕ)
          → h.op ≡ op_fetch
          → values i ≡ some v
          → Finished
              (fetch_answer (key_of i) v h ∷ [])
              values
              (handle (orbitcache_protocol tommy) d buf s)
      done_fetch v which e =
          subst (Finished (fetch_answer (key_of i) v h ∷ []) values) (sym handle-received) (
            Answers-Done
              (fetch-Answers tommy d.memory received received-Asks s (orbitcache_head + m)
                (holds.holds i q.number ∙ e) (holds.small i v e) which)
              holds)

      done_write :
          h.op ≡ op_write
          → Room m d.memory
          → Finished
              (write_answer m h ∷ [])
              (updated values i (letters m))
              (handle (orbitcache_protocol tommy) d buf s)
      done_write which room =
          subst (Finished (write_answer m h ∷ []) (updated values i (letters m)))
            (sym handle-received)
            (Stores-Done
              (write-Stores tommy d.memory received received-Asks s which m q.small room.stack
                room.malloc holds.valid)
              write_answer-received
              (subst
                (λ v.
                  Holds tommy (updated values i (letters m)) (tommy_put tommy true s (key_of i) v))
                (sym (stored_letters room.ends))
                (tommy_put-Holds tommy values s i (letters m) holds q.number
                  (omega (arith, length-letters m, q.small)))))

  -- On a store that holds some values, whatever its buffer held before, the handler of an OrbitCache worker
  -- ends well for a datagram that the specification takes: for a read, a correction or a fetch of a key
  -- with a value, a write with room on the stack and a NUL behind its array, and a datagram of another type.
  -- The answer reaches every client as specified, and the store holds the values specified.
  pub orbitcache_handler-Done :
      {values values' : Values} {d : Delivery} {answer : List (OrbitcacheHdr → OrbitcacheHdr)}
      → OrbitcacheSpec values d answer values'
      → (buf : OrbitcacheHdr) → IsOrbitcacheHdr buf
      → (s : Store tommy) → Holds tommy values s
      → Finished answer values' (handle (orbitcache_protocol tommy) d buf s)
  orbitcache_handler-Done (read values d i m h v q which e) buf fits s holds =
      done_read d i m h q buf fits s holds v which e
  orbitcache_handler-Done (fetch values d i m h v q which e) buf fits s holds =
      done_fetch d i m h q buf fits s holds v which e
  orbitcache_handler-Done (write values d i m h q which room) buf fits s holds =
      done_write d i m h q buf fits s holds which room
  orbitcache_handler-Done (dropped values d i m h q which) buf fits s holds =
      subst (Finished [] values) (sym (handle-received d i m h q buf fits s))
        (drops d i m h q buf fits s holds which)

  pub orbitcache-Meets : Meets (orbitcache_protocol tommy) IsOrbitcacheHdr OrbitcacheSpec
  orbitcache-Meets = record {
    serves = λ spec buf fits s holds. orbitcache_handler-Done spec buf fits s holds;
  }
