-- ===== src/Server/Nocache/Spec.antt =====
-- What a Nocache worker promises its clients.
use orbit_cache_public.Prelude.{ℕ, ◌+◌, ◌^◌, ◌≤◌, ◌<◌, ◌≡◌, ◌≢◌, List, [], ◌∷◌, length, some}
use orbit_cache_public.Text.{overwrite}
use orbit_cache_public.Text.Laws.{Spells}
use orbit_cache_public.Key.Laws.{key_of}
use orbit_cache_public.Packet.{max_value_size, op_read, op_r_reply, op_write, op_w_reply}
use orbit_cache_public.Packet.Nocache.{NocacheHdr, IsNocacheHdr, nocache_head, send_nocache}
use orbit_cache_public.Server.Memory.{letters, Room}
use orbit_cache_public.Server.Values.{Values, updated}
use orbit_cache_public.Server.Loop.{Delivery}

-- A datagram of the head of `h` and `m` bytes of its value, for the number `i` of the data set.
pub record Request (i m : ℕ) (h : NocacheHdr) (d : Delivery) : Type 0 where
  pub number : i < 2 ^ 64
  pub fits : IsNocacheHdr h
  pub spells : Spells (key_of i) h.org_key
  pub small : m ≤ max_value_size
  pub datagram : d.datagram ≡ send_nocache (nocache_head + m) h

abbrev pub read_answer : List ℕ → NocacheHdr → NocacheHdr → NocacheHdr
read_answer v h client = record h { op = op_r_reply; value = overwrite v client.value }

abbrev pub write_answer : NocacheHdr → NocacheHdr → NocacheHdr
write_answer h client = record h { op = op_w_reply; value = client.value }

-- A read gives the whole value, where there is room for its NUL; a write puts as many letters as the
-- datagram has bytes of value; anything else is dropped.
pub data NocacheSpec : Values → Delivery → List (NocacheHdr → NocacheHdr) → Values → Type 0 where
  read :
      (values : Values) (d : Delivery) (i m : ℕ) (h : NocacheHdr) (v : List ℕ)
      → Request i m h d
      → h.op ≡ op_read
      → values i ≡ some v
      → length v < max_value_size
      → NocacheSpec values d (read_answer v h ∷ []) values
  write :
      (values : Values) (d : Delivery) (i m : ℕ) (h : NocacheHdr)
      → Request i m h d
      → h.op ≡ op_write
      → Room m d.memory
      → NocacheSpec values d (write_answer h ∷ []) (updated values i (letters m))
  dropped :
      (values : Values) (d : Delivery) (i m : ℕ) (h : NocacheHdr)
      → Request i m h d
      → (h.op ≢ op_read) × (h.op ≢ op_write)
      → NocacheSpec values d [] values
