-- ===== src/System/Worker.antt =====
-- A request for a key of the data set at the worker of `server.c` that the key belongs to, after it
-- has prepared its data.
use orbit_cache_public.Prelude.{
  ℕ, ◌⊎◌, ◌+◌, ◌^◌, ◌≤◌, ◌<◌, ◌≡◌, ap, subst, ◌∙◌, sym, ◌↔◌, List, [], true, get_or, arith, length,
  some,
}
use orbit_cache_public.Text.Laws.{str_eq_iff}
use orbit_cache_public.Key.Laws.{key_of}
use orbit_cache_public.Packet.{op_crctn, op_read}
use orbit_cache_public.Packet.Orbitcache.{
  OrbitcacheHdr, IsOrbitcacheHdr, orbitcache_head, send_orbitcache, recv_orbitcache,
  recv_orbitcache-send_orbitcache, value-IsOrbitcacheHdr,
}
use orbit_cache_public.Routing.{dst_ip, dst_addr, partition_of, orbitcache_base_port}
use orbit_cache_public.Store.HashTable.{Tommy}
use orbit_cache_public.Store.{Store, tommy_get}
use orbit_cache_public.Server.Memory.{Memory}
use orbit_cache_public.Server.Load.{Place, prepare_data}
use orbit_cache_public.Server.Load.Value.{drawn_value, length-drawn_value}
use orbit_cache_public.Server.Load.Laws.{belongs, prepare_data_lem}
use orbit_cache_public.Server.Orbitcache.{serve_orbitcache}
use orbit_cache_public.Server.Orbitcache.Laws.{Asks, Answers, read_answer, read-Answers}
use orbit_cache_public.Client.Request.{Sent}

-- The worker that listens where this datagram goes.
pub record Listens (place : Place) (workers : ℕ) (sent : Sent) : Type 0 where
  pub host : place.ipaddr ≡ sent.address
  pub port : orbitcache_base_port + place.partition_id ≡ sent.port
  pub same_workers : place.num_srv_workers ≡ workers

-- A key belongs to the worker with its address and its partition, and to no other.
pub belongs_iff :
    (place : Place) (key : List ℕ)
    → (belongs place key ≡ true) ↔ (
        (place.ipaddr ≡ get_or dst_ip (dst_addr key) [])
        × (place.partition_id ≡ partition_of place.num_srv_workers key))
unfolding belongs
belongs_iff place key = ground (arith, str_eq_iff (get_or dst_ip (dst_addr key) []) place.ipaddr)

-- `sent` goes to the worker of a key, and carries the head of the request `h`.
pub record Carries (workers : ℕ) (key : List ℕ) (h : OrbitcacheHdr) (sent : Sent) : Type 0 where
  pub address : sent.address ≡ get_or dst_ip (dst_addr key) []
  pub port : sent.port ≡ orbitcache_base_port + partition_of workers key
  pub datagram : sent.datagram ≡ send_orbitcache orbitcache_head h

-- A key whose request goes where the worker listens belongs to it.
pub Listens-belongs :
    (place : Place) (workers : ℕ) (key : List ℕ) (sent : Sent)
    → Listens place workers sent
    → sent.address ≡ get_or dst_ip (dst_addr key) []
    → sent.port ≡ orbitcache_base_port + partition_of workers key
    → belongs place key ≡ true
Listens-belongs place workers key sent listens address port =
    (belongs_iff place key).1
      (listens.host ∙ address, rw listens.same_workers (omega (arith, listens.port, port)))

-- The store of a worker that has prepared its data.
abbrev pub held : (tommy : Tommy) → Memory → Place → (ℕ → ℕ) → ℕ → List ℕ → Store tommy
held tommy memory place rand size key_str = prepare_data tommy memory place rand size key_str

module _ (tommy : Tommy) (memory : Memory) (place : Place) (rand : ℕ → ℕ) (size : ℕ)
    (key_str : List ℕ) (no_failure : memory.malloc_ok ≡ true) (size_le : size ≤ 2 ^ 64)
    (key_length : length key_str ≡ 16) where
  abbrev store : Store tommy
  store = held tommy memory place rand size key_str

  -- A read or a correction for a key of the data set that is sent to the worker that the key belongs
  -- to is answered with the value of that key, whatever the server's buffer store before.
  pub prepared-Answers :
      (workers i : ℕ)
      → i < size
      → (h : OrbitcacheHdr) → Asks (key_of i) h
      → (h.op ≡ op_read) ⊎ (h.op ≡ op_crctn)
      → (sent : Sent) → Carries workers (key_of i) h sent
      → Listens place workers sent
      → (memory' : Memory) (buf : OrbitcacheHdr) → IsOrbitcacheHdr buf
      → Answers tommy
          (read_answer (drawn_value (rand i)) h)
          store
          (serve_orbitcache tommy memory' orbitcache_head (recv_orbitcache sent.datagram buf) store)
  prepared-Answers workers i lt h asks which sent carries listens memory' buf fits =
      subst
        (λ r.
          Answers tommy (read_answer (drawn_value (rand i)) h) store
            (serve_orbitcache tommy memory' orbitcache_head r store))
        (sym arrives)
        (read-Answers tommy memory' request request_asks store orbitcache_head found
          (length-drawn_value (rand i)) which)
    where
      request : OrbitcacheHdr
      request = record h { value = buf.value }

      request_asks : Asks (key_of i) request
      request_asks = record {
        fits = value-IsOrbitcacheHdr asks.fits fits.value_length;
        spells = asks.spells;
      }

      arrives : recv_orbitcache sent.datagram buf ≡ request
      arrives =
          ap (λ d. recv_orbitcache d buf) carries.datagram
          ∙ recv_orbitcache-send_orbitcache h buf 0 asks.fits fits (omega arith)

      here : belongs place (key_of i) ≡ true
      here = Listens-belongs place workers (key_of i) sent listens carries.address carries.port

      found : tommy_get tommy store (key_of i) ≡ some (drawn_value (rand i))
      found =
          (prepare_data_lem tommy memory place rand no_failure size key_str size_le key_length).1 i
            (omega arith)
          ∙ rw here (ground arith)
