-- ===== src/Server/Orbitcache/Laws.antt =====
-- How a worker answers each kind of OrbitCache request, and what the client receives.
use orbit_cache_public.Prelude.{
  ℕ, ◌+◌, ◌≤◌, ◌≡◌, refl, ap, ◌∙◌, ◌⊎◌, List, [], ◌∷◌, length, none, some, arith,
}
use orbit_cache_public.Text.{overwrite, snprintf_bytes}
use orbit_cache_public.Text.Laws.{
  Spells, until_nul-Spells, length-Spells, until_nul-strncpy_bytes, length-overwrite,
  length-snprintf_bytes, take-overwrite,
}
use orbit_cache_public.Run.{Run, ok, fault, null_pointer}
use orbit_cache_public.Store.HashTable.{Tommy}
use orbit_cache_public.Store.{Store, tommy_get}
use orbit_cache_public.Packet.{
  max_value_size, op_read, op_r_reply, op_write, op_crctn, op_fetch, op_f_reply, fetching, lastack,
}
use orbit_cache_public.Packet.Endian.{htonll, htonll-lt}
use orbit_cache_public.Hash.{hash64_str, hash64_str2}
use orbit_cache_public.Packet.Orbitcache.{
  OrbitcacheHdr, IsOrbitcacheHdr, orbitcache_head, send_orbitcache, recv_orbitcache,
  recv_orbitcache-send_orbitcache, value-IsOrbitcacheHdr, tags-IsOrbitcacheHdr,
}
use orbit_cache_public.Server.Memory.{Memory, Served}
use orbit_cache_public.Server.Orbitcache.{
  org_key_str, key_str, serve_read, serve_fetch, serve_write, serve_orbitcache,
}

-- A request for the key `k`.
pub record Asks (k : List ℕ) (h : OrbitcacheHdr) : Type 0 where
  pub fits : IsOrbitcacheHdr h
  pub spells : Spells k h.org_key

-- What a client that asked by the header `h` has after the reply to a read of the value `v`.
abbrev pub read_answer : List ℕ → OrbitcacheHdr → OrbitcacheHdr → OrbitcacheHdr
read_answer v h client = record h {
  op = op_r_reply;
  flag = lastack;
  value = overwrite (snprintf_bytes (length v) v) client.value;
}

org_key_str-Asks : {k : List ℕ} (h : OrbitcacheHdr) → Asks k h → org_key_str h ≡ k
org_key_str-Asks h a = until_nul-Spells h.value a.spells

pub key_str-Asks :
    {k : List ℕ} (memory : Memory) (h : OrbitcacheHdr) → Asks k h → key_str memory h ≡ k
key_str-Asks {k} memory h a = rw (org_key_str-Asks h a) (
    until_nul-strncpy_bytes 16 k memory.after_key a.spells.text
      (omega (arith, length-Spells a.spells, a.fits.key_length)))

module _ (tommy : Tommy) where
  -- The server answers with one datagram, which reaches a client with any buffer as `reply` says,
  -- and keeps its store; what it leaves in its buffer is a header.
  pub record Answers (reply : OrbitcacheHdr → OrbitcacheHdr) (s : Store tommy)
      (r : Run (Served tommy OrbitcacheHdr)) : Type 0 where
    pub served : Served tommy OrbitcacheHdr
    pub returns : r ≡ ok served
    pub header : IsOrbitcacheHdr served.buf
    pub same_store : served.hashlin ≡ s
    pub datagram : List ℕ
    pub one_datagram : served.sent ≡ datagram ∷ []
    pub received :
        (client : OrbitcacheHdr)
        → IsOrbitcacheHdr client
        → recv_orbitcache datagram client ≡ reply client

  -- The result of sending the head of `base` and these bytes as its value.
  abbrev sending : OrbitcacheHdr → List ℕ → Store tommy → Served tommy OrbitcacheHdr
  sending base bytes s =
      let reply = record base { value = overwrite bytes base.value } in
      record {
        buf = reply;
        hashlin = s;
        sent = send_orbitcache (orbitcache_head + length bytes) reply ∷ [];
      }

  sending-Answers :
      (base : OrbitcacheHdr) (bytes : List ℕ) (s : Store tommy)
      (r : Run (Served tommy OrbitcacheHdr))
      → IsOrbitcacheHdr base
      → length bytes ≤ max_value_size
      → r ≡ ok (sending base bytes s)
      → Answers (λ client. record base { value = overwrite bytes client.value }) s r
  sending-Answers base bytes s r i h e = record {
    served = sending base bytes s;
    returns = e;
    header = value-IsOrbitcacheHdr i (length-overwrite bytes base.value ∙ i.value_length);
    same_store = refl;
    datagram =
        send_orbitcache (orbitcache_head + length bytes)
          (record base { value = overwrite bytes base.value });
    one_datagram = refl;
    received = λ client c.
        recv_orbitcache-send_orbitcache (record base { value = overwrite bytes base.value }) client
          (length bytes)
          (value-IsOrbitcacheHdr i (length-overwrite bytes base.value ∙ i.value_length)) c h
        ∙ ap (λ w. record base { value = overwrite w client.value })
            (take-overwrite (length bytes) bytes base.value refl (rw i.value_length h));
  }

  module _ (memory : Memory) {k : List ℕ} (h : OrbitcacheHdr) (asks : Asks k h) (s : Store tommy)
      (n : ℕ) where
    pub dispatch_read :
        (h.op ≡ op_read) ⊎ (h.op ≡ op_crctn)
        → serve_orbitcache tommy memory n h s ≡ serve_read tommy memory h s
    unfolding serve_orbitcache
    dispatch_read which = ground arith

    pub dispatch_fetch :
        h.op ≡ op_fetch → serve_orbitcache tommy memory n h s ≡ serve_fetch tommy memory h s
    unfolding serve_orbitcache
    dispatch_fetch e = ground arith

    pub dispatch_write :
        h.op ≡ op_write → serve_orbitcache tommy memory n h s ≡ serve_write tommy memory n h s
    unfolding serve_orbitcache
    dispatch_write e = ground arith

    module _ {v : List ℕ} (stored : tommy_get tommy s k ≡ some v)
        (small : length v ≤ max_value_size) where
      found : tommy_get tommy s (key_str memory h) ≡ some v
      found = ap (tommy_get tommy s) (key_str-Asks memory h asks) ∙ stored

      cut_fits : length (snprintf_bytes (length v) v) ≤ max_value_size
      cut_fits = omega (arith, length-snprintf_bytes v)

      serve_read-ok :
          serve_read tommy memory h s
          ≡ ok (
              sending
                (record h { op = op_r_reply; flag = lastack })
                (snprintf_bytes (length v) v)
                s)
      unfolding serve_read
      serve_read-ok = rw (found, length-snprintf_bytes v) (ground arith)

      -- A read or a correction of a stored key is answered with an `OP_R_REPLY` for the same
      -- sequence number and key; of the value it carries as many bytes as the value has, the last
      -- of them a NUL in place of the value's last byte. The store stays as it was.
      pub read-Answers :
          (h.op ≡ op_read) ⊎ (h.op ≡ op_crctn)
          → Answers (read_answer v h) s (serve_orbitcache tommy memory n h s)
      read-Answers which =
          sending-Answers (record h { op = op_r_reply; flag = lastack }) _ s _
            (tags-IsOrbitcacheHdr asks.fits (omega (arith, asks.fits))) cut_fits
            (dispatch_read which ∙ serve_read-ok)

      serve_fetch-ok :
          serve_fetch tommy memory h s
          ≡ ok (
              sending
                (record h {
                  op = op_f_reply;
                  hkey_hi = htonll (hash64_str k);
                  hkey_lo = htonll (hash64_str2 k);
                  flag = fetching;
                  cached = 1;
                })
                (snprintf_bytes (length v) v)
                s)
      unfolding serve_fetch
      serve_fetch-ok = rw (found, length-snprintf_bytes v, org_key_str-Asks h asks) (ground arith)

      -- A fetch of a stored key is answered with an `OP_F_REPLY` that carries the two hashes of the
      -- key, in network byte order, and the value, cut as in a read. The store stays as it was.
      pub fetch-Answers :
          h.op ≡ op_fetch
          → Answers
              (λ client. record h {
                op = op_f_reply;
                hkey_hi = htonll (hash64_str k);
                hkey_lo = htonll (hash64_str2 k);
                flag = fetching;
                cached = 1;
                value = overwrite (snprintf_bytes (length v) v) client.value;
              })
              s
              (serve_orbitcache tommy memory n h s)
      fetch-Answers which =
          sending-Answers
            (record h {
              op = op_f_reply;
              hkey_hi = htonll (hash64_str k);
              hkey_lo = htonll (hash64_str2 k);
              flag = fetching;
              cached = 1;
            })
            _ s _
            (tags-IsOrbitcacheHdr asks.fits
              (omega (arith, htonll-lt (hash64_str k), htonll-lt (hash64_str2 k))))
            cut_fits (dispatch_fetch which ∙ serve_fetch-ok)

    -- A read, a correction or a fetch of a key that is not stored runs into `strlen(NULL)`.
    pub absent-null_pointer :
        tommy_get tommy s k ≡ none
        → (h.op ≡ op_read) ⊎ (h.op ≡ op_crctn) ⊎ (h.op ≡ op_fetch)
        → serve_orbitcache tommy memory n h s ≡ fault null_pointer
    unfolding serve_orbitcache serve_read serve_fetch
    absent-null_pointer e which = rw (key_str-Asks memory h asks, e) (ground arith)
