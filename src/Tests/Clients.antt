-- ===== src/Tests/Clients.antt =====
-- The theorems on the client, for the seventh key under sequence number 5.
use orbit_cache_public.Prelude.{
  ℕ, ◌+◌, ◌≡◌, refl, arith, [], ◌∷◌, ◌++◌, leb, none, some, if◌then◌else◌,
}
use orbit_cache_public.Text.{strncpy_bytes}
use orbit_cache_public.Run.{fault, null_pointer}
use orbit_cache_public.Packet.{op_r_reply}
use orbit_cache_public.Packet.Endian.{htonl, ntohl}
use orbit_cache_public.Packet.Orbitcache.{OrbitcacheHdr}
use orbit_cache_public.Client.Seq.{initial_seq_hdrs, max_seq_hdrs, seq_get}
use orbit_cache_public.Client.Seq.Laws.{initial-IsTable, put_run, seq_get-put_run}
use orbit_cache_public.Client.Reply.{initial_stats, receive_orbitcache}
use orbit_cache_public.Client.Reply.Lost.{late_reply-null_pointer}
use orbit_cache_public.Tests.Fixtures.{workers, asked}

abbrev reply : OrbitcacheHdr
reply = record (asked op_r_reply 0) { cached = 1; seq = htonl 5 }

seq_get-put_run_example : seq_get (put_run initial_seq_hdrs 3 (λ (i : ℕ). (65 + i) ∷ []) 4) 5 ≡ (
    if leb (3 + 4) (5 + max_seq_hdrs)
    then some (strncpy_bytes 15 ((65 + 5) ∷ []) ++ 0 ∷ [])
    else none)
seq_get-put_run_example =
    seq_get-put_run initial_seq_hdrs 3 (λ (i : ℕ). (65 + i) ∷ []) 4 5 initial-IsTable (omega arith)
      (omega arith) (omega arith)

seq_of_reply : ntohl reply.seq ≡ 5
unfolding ntohl htonl
seq_of_reply = refl

late_reply-null_pointer_example :
    receive_orbitcache workers 2000 2001 2002
      (put_run initial_seq_hdrs 3 (λ (i : ℕ). (65 + i) ∷ []) 50000010)
      reply
      initial_stats
    ≡ fault null_pointer
late_reply-null_pointer_example =
    late_reply-null_pointer initial_seq_hdrs 3 (λ (i : ℕ). (65 + i) ∷ []) 50000010 5 initial-IsTable
      (omega arith) (omega arith) (omega arith) workers 2000 2001 2002 reply initial_stats refl refl
      seq_of_reply
