-- ===== src/Server/Orbitcache.antt =====
-- server.c, one request of the OrbitCache protocol: `n` is what `recvfrom` returned, `buf` the
-- buffer after it. `DYNAMIC` is 0, so the popularity report is not part of a run.
pub mod Laws
pub mod Write
pub mod Spec
pub mod Loop
use orbit_cache_public.Prelude.{
  ℕ, ◌+◌, ◌-◌, ◌^◌, List, [], ◌∷◌, ◌++◌, Bool, true, false, ◌||◌, ◌==◌, ltb, leb, u64,
  if◌then◌else◌, length, take, drop,
}
use orbit_cache_public.Text.{until_nul, overwrite, strncpy_bytes, snprintf_bytes}
use orbit_cache_public.Run.{
  Run, ok, fault, null_pointer, buffer_overflow, or_fault, guard, ◌>>=◌, ◌>>◌,
}
use orbit_cache_public.Store.HashTable.{Tommy}
use orbit_cache_public.Store.{Store, tommy_put, tommy_get}
use orbit_cache_public.Packet.{
  max_value_size, op_read, op_r_reply, op_write, op_w_reply, op_crctn, op_fetch, op_f_reply,
  fetching, lastack,
}
use orbit_cache_public.Packet.Orbitcache.{OrbitcacheHdr, orbitcache_head, send_orbitcache}
use orbit_cache_public.Server.Memory.{Memory, Served, value_str, size_t_sub}
use orbit_cache_public.Packet.Endian.{htonll}
use orbit_cache_public.Hash.{hash64_str, hash64_str2}

abbrev pub key_size : ℕ
key_size = 16

-- The string at `RecvBuffer.org_key`; an array without a NUL goes on into the value.
abbrev pub org_key_str : OrbitcacheHdr → List ℕ
org_key_str buf = until_nul (buf.org_key ++ buf.value)

-- `strncpy(keyStr, RecvBuffer.org_key, sizeof(keyStr))`, as the string that the store reads.
abbrev pub key_str : Memory → OrbitcacheHdr → List ℕ
key_str memory buf = until_nul (strncpy_bytes key_size (org_key_str buf) ++ memory.after_key)

module _ (tommy : Tommy) (memory : Memory) where
  -- `snprintf(RecvBuffer.value, value_size, "%s", value)` writes `value_size` bytes with the NUL.
  unfoldable pub serve_read : OrbitcacheHdr → Store tommy → Run (Served tommy OrbitcacheHdr)
  serve_read buf hashlin = do
    value ← or_fault (tommy_get tommy hashlin (key_str memory buf)) null_pointer
    guard (leb (length value) max_value_size) buffer_overflow
    let reply = record buf {
      op = op_r_reply;
      flag = lastack;
      value = overwrite (snprintf_bytes (length value) value) buf.value;
    }
    ok (record {
      buf = reply;
      hashlin = hashlin;
      sent = send_orbitcache (orbitcache_head + length value) reply ∷ [];
    })

  unfoldable pub serve_fetch : OrbitcacheHdr → Store tommy → Run (Served tommy OrbitcacheHdr)
  serve_fetch buf hashlin = do
    value ← or_fault (tommy_get tommy hashlin (key_str memory buf)) null_pointer
    guard (leb (length value) max_value_size) buffer_overflow
    let reply = record buf {
      op = op_f_reply;
      hkey_hi = htonll (hash64_str (org_key_str buf));
      hkey_lo = htonll (hash64_str2 (org_key_str buf));
      flag = fetching;
      cached = 1;
      value = overwrite (snprintf_bytes (length value) value) buf.value;
    }
    ok (record {
      buf = reply;
      hashlin = hashlin;
      sent = send_orbitcache (orbitcache_head + length value) reply ∷ [];
    })

  -- The reply and the number of its bytes: a write that fetches goes back whole, to become the
  -- new cache packet.
  abbrev write_reply : ℕ → OrbitcacheHdr → OrbitcacheHdr × ℕ
  write_reply n buf =
      if buf.flag == fetching
      then (record buf { op = op_w_reply; cached = 1 }, n)
      else (record buf { op = op_w_reply }, orbitcache_head)

  unfoldable pub serve_write : ℕ → OrbitcacheHdr → Store tommy → Run (Served tommy OrbitcacheHdr)
  serve_write n buf hashlin = do
    value ← value_str memory (size_t_sub n orbitcache_head)
    let (reply, pkt_size) = write_reply n buf
    ok (record {
      buf = reply;
      hashlin = tommy_put tommy memory.malloc_ok hashlin (key_str memory buf) value;
      sent = send_orbitcache pkt_size reply ∷ [];
    })

  -- A datagram of any other type is dropped.
  unfoldable pub serve_orbitcache :
      ℕ → OrbitcacheHdr → Store tommy → Run (Served tommy OrbitcacheHdr)
  serve_orbitcache n buf hashlin =
      if buf.op == op_read || buf.op == op_crctn
      then serve_read buf hashlin
      else if buf.op == op_fetch
      then serve_fetch buf hashlin
      else if buf.op == op_write
      then serve_write n buf hashlin
      else ok (record { buf = buf; hashlin = hashlin; sent = [] })
