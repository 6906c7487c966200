-- ===== src/Server/Netcache.antt =====
-- server.c, one request of the NetCache protocol: `n` is what `recvfrom` returned, `buf` the buffer after it.
pub mod Spec
pub mod Loop
use orbit_cache_public.Prelude.{ℕ, ◌+◌, List, [], ◌∷◌, ◌++◌, ◌==◌, ltb, if◌then◌else◌, length}
use orbit_cache_public.Text.{until_nul, overwrite}
use orbit_cache_public.Run.{Run, ok, null_pointer, buffer_overflow, or_fault, guard, ◌>>=◌, ◌>>◌}
use orbit_cache_public.Store.HashTable.{Tommy}
use orbit_cache_public.Store.{Store, tommy_put, tommy_get}
use orbit_cache_public.Packet.{
  max_value_size, op_read, op_r_reply, op_write, op_w_reply, op_fetch, op_f_reply,
}
use orbit_cache_public.Packet.Netcache.{NetcacheHdr, netcache_head, send_netcache}
use orbit_cache_public.Server.Memory.{Memory, Served, value_str, size_t_sub}

-- The string at `RecvBuffer.org_key`; an array without a NUL goes on into the value.
abbrev pub key_str : NetcacheHdr → List ℕ
key_str buf = until_nul (buf.org_key ++ buf.value)

module _ (tommy : Tommy) (memory : Memory) where
  unfoldable pub serve_read : NetcacheHdr → Store tommy → Run (Served tommy NetcacheHdr)
  serve_read buf hashlin = do
    value ← or_fault (tommy_get tommy hashlin (key_str buf)) null_pointer
    guard (ltb (length value) max_value_size) buffer_overflow
    let reply = record buf { op = op_r_reply; value = overwrite (value ++ 0 ∷ []) buf.value }
    ok (record {
      buf = reply;
      hashlin = hashlin;
      sent = send_netcache (netcache_head + length value) reply ∷ [];
    })

  unfoldable pub serve_write : ℕ → NetcacheHdr → Store tommy → Run (Served tommy NetcacheHdr)
  serve_write n buf hashlin = do
    value ← value_str memory (size_t_sub n netcache_head)
    let reply = record buf { op = op_w_reply }
    ok (record {
      buf = reply;
      hashlin = tommy_put tommy memory.malloc_ok hashlin (key_str buf) value;
      sent = send_netcache netcache_head reply ∷ [];
    })

  -- Two datagrams: the whole request back, then a write reply with sequence number 0.
  unfoldable pub serve_fetch : ℕ → NetcacheHdr → Store tommy → Run (Served tommy NetcacheHdr)
  serve_fetch n buf hashlin = do
    value ← value_str memory (size_t_sub n netcache_head)
    let fetched = record buf { op = op_f_reply }
    let reply = record buf { op = op_w_reply; seq = 0 }
    ok (record {
      buf = reply;
      hashlin = tommy_put tommy memory.malloc_ok hashlin (key_str buf) value;
      sent = send_netcache n fetched ∷ send_netcache netcache_head reply ∷ [];
    })

  -- A datagram of any other type is dropped.
  unfoldable pub serve_netcache : ℕ → NetcacheHdr → Store tommy → Run (Served tommy NetcacheHdr)
  serve_netcache n buf hashlin =
      if buf.op == op_read
      then serve_read buf hashlin
      else if buf.op == op_write
      then serve_write n buf hashlin
      else if buf.op == op_fetch
      then serve_fetch n buf hashlin
      else ok (record { buf = buf; hashlin = hashlin; sent = [] })
