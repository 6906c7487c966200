-- ===== src/Server/Nocache.antt =====
-- server.c, one request of the NoCache protocol: `n` is what `recvfrom` returned, `buf` the buffer after it.
pub mod Spec
pub mod Loop
use orbit_cache_public.Prelude.{ℕ, ◌+◌, List, [], ◌∷◌, ◌++◌, ◌==◌, ltb, if◌then◌else◌, length}
use orbit_cache_public.Text.{until_nul, overwrite}
use orbit_cache_public.Run.{Run, ok, null_pointer, buffer_overflow, or_fault, guard, ◌>>=◌, ◌>>◌}
use orbit_cache_public.Store.HashTable.{Tommy}
use orbit_cache_public.Store.{Store, tommy_put, tommy_get}
use orbit_cache_public.Packet.{max_value_size, op_read, op_r_reply, op_write, op_w_reply}
use orbit_cache_public.Packet.Nocache.{NocacheHdr, nocache_head, send_nocache}
use orbit_cache_public.Server.Memory.{Memory, Served, value_str, size_t_sub}

-- The string at `RecvBuffer.org_key`; an array without a NUL goes on into the value.
abbrev pub key_str : NocacheHdr → List ℕ
key_str buf = until_nul (buf.org_key ++ buf.value)

module _ (tommy : Tommy) (memory : Memory) where
  unfoldable pub serve_read : NocacheHdr → Store tommy → Run (Served tommy NocacheHdr)
  serve_read buf hashlin = do
    value ← or_fault (tommy_get tommy hashlin (key_str buf)) null_pointer
    guard (ltb (length value) max_value_size) buffer_overflow
    let reply = record buf { op = op_r_reply; value = overwrite (value ++ 0 ∷ []) buf.value }
    ok (record {
      buf = reply;
      hashlin = hashlin;
      sent = send_nocache (nocache_head + length value) reply ∷ [];
    })

  unfoldable pub serve_write : ℕ → NocacheHdr → Store tommy → Run (Served tommy NocacheHdr)
  serve_write n buf hashlin = do
    value ← value_str memory (size_t_sub n nocache_head)
    let reply = record buf { op = op_w_reply }
    ok (record {
      buf = reply;
      hashlin = tommy_put tommy memory.malloc_ok hashlin (key_str buf) value;
      sent = send_nocache nocache_head reply ∷ [];
    })

  -- A datagram of any other type is dropped.
  unfoldable pub serve_nocache : ℕ → NocacheHdr → Store tommy → Run (Served tommy NocacheHdr)
  serve_nocache n buf hashlin =
      if buf.op == op_read
      then serve_read buf hashlin
      else if buf.op == op_write
      then serve_write n buf hashlin
      else ok (record { buf = buf; hashlin = hashlin; sent = [] })
