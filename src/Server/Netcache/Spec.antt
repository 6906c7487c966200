-- ===== src/Server/Netcache/Spec.antt =====
-- What a Netcache worker promises its clients.
use orbit_cache_public.Prelude.{ℕ, ◌+◌, ◌^◌, ◌≤◌, ◌<◌, ◌≡◌, ◌≢◌, List, [], ◌∷◌, take, length, some}
use orbit_cache_public.Text.{overwrite}
use orbit_cache_public.Text.Laws.{Spells}
use orbit_cache_public.Key.Laws.{key_of}
use orbit_cache_public.Packet.{
  max_value_size, op_read, op_r_reply, op_write, op_w_reply, op_fetch, op_f_reply,
}
use orbit_cache_public.Packet.Netcache.{NetcacheHdr, IsNetcacheHdr, netcache_head, send_netcache}
use orbit_cache_public.Server.Memory.{letters, Room}
use orbit_cache_public.Server.Values.{Values, updated}
use orbit_cache_public.Server.Loop.{Delivery}

-- A datagram of the head of `h` and `m` bytes of its value, for the number `i` of the data set.
pub record Request (i m : ℕ) (h : NetcacheHdr) (d : Delivery) : Type 0 where
  pub number : i < 2 ^ 64
  pub fits : IsNetcacheHdr h
  pub spells : Spells (key_of i) h.org_key
  pub small : m ≤ max_value_size
  pub datagram : d.datagram ≡ send_netcache (netcache_head + m) h

abbrev pub read_answer : List ℕ → NetcacheHdr → NetcacheHdr → NetcacheHdr
read_answer v h client = record h { op = op_r_reply; value = overwrite v client.value }

abbrev pub write_answer : NetcacheHdr → NetcacheHdr → NetcacheHdr
write_answer h client = record h { op = op_w_reply; value = client.value }

abbrev pub fetch_answer : ℕ → NetcacheHdr → NetcacheHdr → NetcacheHdr
fetch_answer m h client = record h {
  op = op_f_reply;
  value = overwrite (take m h.value) client.value;
}

-- A read gives the whole value, where there is room for its NUL; a write puts as many letters as the
-- datagram has bytes of value; a fetch does so too, gives its own bytes back, and then confirms a write
-- of sequence number 0; anything else is dropped.
pub data NetcacheSpec : Values → Delivery → List (NetcacheHdr → NetcacheHdr) → Values → Type 0 where
  read :
      (values : Values) (d : Delivery) (i m : ℕ) (h : NetcacheHdr) (v : List ℕ)
      → Request i m h d
      → h.op ≡ op_read
      → values i ≡ some v
      → length v < max_value_size
      → NetcacheSpec values d (read_answer v h ∷ []) values
  write :
      (values : Values) (d : Delivery) (i m : ℕ) (h : NetcacheHdr)
      → Request i m h d
      → h.op ≡ op_write
      → Room m d.memory
      → NetcacheSpec values d (write_answer h ∷ []) (updated values i (letters m))
  fetch :
      (values : Values) (d : Delivery) (i m : ℕ) (h : NetcacheHdr)
      → Request i m h d
      → h.op ≡ op_fetch
      → Room m d.memory
      → NetcacheSpec values d
          (fetch_answer m h ∷ write_answer (record h { seq = 0 }) ∷ [])
          (updated values i (letters m))
  dropped :
      (values : Values) (d : Delivery) (i m : ℕ) (h : NetcacheHdr)
      → Request i m h d
      → (h.op ≢ op_read) × (h.op ≢ op_write) × (h.op ≢ op_fetch)
      → NetcacheSpec values d [] values
