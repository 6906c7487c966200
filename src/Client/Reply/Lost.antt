-- ===== src/Client/Reply/Lost.antt =====
-- A reply from the cache (client.c, `rx_t`) that comes after the table of sequence numbers has lost its key.
use orbit_cache_public.Prelude.{
  ℕ, ◌+◌, ◌^◌, ◌≤◌, ◌<◌, ◌≡◌, refl, ◌∙◌, ap, List, true, false, none, ◌==◌, leb, arith,
}
use orbit_cache_public.Run.{fault, null_pointer}
use orbit_cache_public.Packet.{op_r_reply}
use orbit_cache_public.Packet.Endian.{ntohl}
use orbit_cache_public.Packet.Orbitcache.{OrbitcacheHdr}
use orbit_cache_public.Client.Seq.{SeqHdrs, max_seq_hdrs, seq_get}
use orbit_cache_public.Client.Seq.Laws.{IsTable, put_run, seq_get-put_run}
use orbit_cache_public.Client.Reply.{Stats, receive_orbitcache, check_collision}

-- After `n` requests in a row, whose sequence numbers do not wrap around in 32 bits, a reply from the cache to
-- one that `MAX_SEQ_HDRS` others have followed makes the Rx worker read through the NULL that `seq_get`
-- gives for it, whatever key the reply brings.
pub late_reply-null_pointer :
    (t : SeqHdrs) (s : ℕ) (keys : ℕ → List ℕ) (n i : ℕ)
    → IsTable t
    → s + n ≤ 2 ^ 32
    → s ≤ i
    → i + max_seq_hdrs < s + n
    → (workers now now' now'' : ℕ) (buf : OrbitcacheHdr) (st : Stats) → buf.op ≡ op_r_reply
    → buf.cached ≡ 1
    → ntohl buf.seq ≡ i
    → receive_orbitcache workers now now' now'' (put_run t s keys n) buf st ≡ fault null_pointer
unfolding receive_orbitcache check_collision
late_reply-null_pointer t s keys n i table small from late workers now now' now'' buf st op cached
      seq =
    let read : (buf.op == op_r_reply) ≡ true = ground (arith, op) in
    let marked : (buf.cached == 1) ≡ true = ground (arith, cached) in
    let old : leb (s + n) (i + max_seq_hdrs) ≡ false = ground (arith, late) in
    let lost : seq_get (put_run t s keys n) (ntohl buf.seq) ≡ none =
      ap (seq_get (put_run t s keys n)) seq
      ∙ seq_get-put_run t s keys n i table small from (omega (arith, late))
      ∙ rw old refl in
    rw (read, marked, lost) refl
