-- ===== src/Server/Orbitcache/Spec.antt =====
-- What an OrbitCache worker promises its clients.
use orbit_cache_public.Prelude.{ℕ, ◌+◌, ◌^◌, ◌≤◌, ◌<◌, ◌≡◌, ◌≢◌, ◌⊎◌, List, [], ◌∷◌, length, some}
use orbit_cache_public.Text.{overwrite, snprintf_bytes}
use orbit_cache_public.Key.Laws.{key_of}
use orbit_cache_public.Hash.{hash64_str, hash64_str2}
use orbit_cache_public.Packet.{
  max_value_size, op_read, op_write, op_crctn, op_fetch, op_f_reply, fetching,
}
use orbit_cache_public.Packet.Endian.{htonll}
use orbit_cache_public.Packet.Orbitcache.{OrbitcacheHdr, orbitcache_head, send_orbitcache}
use orbit_cache_public.Server.Memory.{letters, Room}
use orbit_cache_public.Server.Values.{Values, updated}
use orbit_cache_public.Server.Orbitcache.Laws.{Asks, read_answer}
use orbit_cache_public.Server.Orbitcache.Write.{write_answer}
use orbit_cache_public.Server.Loop.{Delivery}

-- A datagram of the head of `h` and `m` bytes of its value, for the number `i` of the data set.
pub record Request (i m : ℕ) (h : OrbitcacheHdr) (d : Delivery) : Type 0 where
  pub number : i < 2 ^ 64
  pub asks : Asks (key_of i) h
  pub small : m ≤ max_value_size
  pub datagram : d.datagram ≡ send_orbitcache (orbitcache_head + m) h

abbrev pub fetch_answer : List ℕ → List ℕ → OrbitcacheHdr → OrbitcacheHdr → OrbitcacheHdr
fetch_answer k v h client = record h {
  op = op_f_reply;
  hkey_hi = htonll (hash64_str k);
  hkey_lo = htonll (hash64_str2 k);
  flag = fetching;
  cached = 1;
  value = overwrite (snprintf_bytes (length v) v) client.value;
}

-- A read or a correction gives the value, cut; a fetch the value with the hashes of its key; a write
-- puts as many letters as the datagram has bytes of value; anything else is dropped.
pub data OrbitcacheSpec
    : Values → Delivery → List (OrbitcacheHdr → OrbitcacheHdr) → Values → Type 0 where
  read :
      (values : Values) (d : Delivery) (i m : ℕ) (h : OrbitcacheHdr) (v : List ℕ)
      → Request i m h d
      → (h.op ≡ op_read) ⊎ (h.op ≡ op_crctn)
      → values i ≡ some v
      → OrbitcacheSpec values d (read_answer v h ∷ []) values
  fetch :
      (values : Values) (d : Delivery) (i m : ℕ) (h : OrbitcacheHdr) (v : List ℕ)
      → Request i m h d
      → h.op ≡ op_fetch
      → values i ≡ some v
      → OrbitcacheSpec values d (fetch_answer (key_of i) v h ∷ []) values
  write :
      (values : Values) (d : Delivery) (i m : ℕ) (h : OrbitcacheHdr)
      → Request i m h d
      → h.op ≡ op_write
      → Room m d.memory
      → OrbitcacheSpec values d (write_answer m h ∷ []) (updated values i (letters m))
  dropped :
      (values : Values) (d : Delivery) (i m : ℕ) (h : OrbitcacheHdr)
      → Request i m h d
      → (h.op ≢ op_read) × (h.op ≢ op_crctn) × (h.op ≢ op_fetch) × (h.op ≢ op_write)
      → OrbitcacheSpec values d [] values
