-- ===== src/Server/Orbitcache/Write.antt =====
-- OrbitCache writes: what is stored, what is sent back, and a read after a write.
use orbit_cache_public.Prelude.{
  ℕ, ◌+◌, ◌-◌, ◌^◌, ◌≤◌, ◌<◌, ◌≡◌, ◌≢◌, refl, ap, ◌∙◌, ◌⊎◌, List, [], ◌∷◌, ◌++◌, true, ◌==◌,
  if◌then◌else◌, take, some, arith, append-nil, Bool-cases, inl, inr, ==_iff,
}
use orbit_cache_public.Text.{until_nul, overwrite, str_eq}
use orbit_cache_public.Text.Laws.{str_eq_refl}
use orbit_cache_public.Run.{Run, ok, fault, stack_overflow}
use orbit_cache_public.Store.HashTable.{Tommy}
use orbit_cache_public.Store.{Store, tommy_put, tommy_get}
use orbit_cache_public.Store.Laws.{IsValid, tommy_get-tommy_put}
use orbit_cache_public.Packet.{max_value_size, op_read, op_write, op_w_reply, op_crctn, fetching}
use orbit_cache_public.Packet.Orbitcache.{
  OrbitcacheHdr, IsOrbitcacheHdr, orbitcache_head, send_orbitcache, recv_orbitcache,
  recv_orbitcache-send_orbitcache, tags-IsOrbitcacheHdr,
}
use orbit_cache_public.Server.Memory.{Memory, Served, letters, value_str, size_t_sub}
use orbit_cache_public.Server.Memory.Laws.{
  value_str-ok, value_str-overflow, size_t_sub-add, size_t_sub-wrap, length-letters,
}
use orbit_cache_public.Server.Orbitcache.{serve_write, serve_orbitcache}
use orbit_cache_public.Server.Orbitcache.Laws.{
  Asks, key_str-Asks, Answers, read_answer, read-Answers, dispatch_write,
}

-- What a client that sent the write `h` with `m` bytes of value receives over its buffer.
abbrev pub write_answer : ℕ → OrbitcacheHdr → OrbitcacheHdr → OrbitcacheHdr
write_answer m h client =
    if h.flag == fetching
    then record h { op = op_w_reply; cached = 1; value = overwrite (take m h.value) client.value }
    else record h { op = op_w_reply; value = client.value }

module _ (tommy : Tommy) where
  -- After a write of `v` under `k` the store is valid and has the value; one datagram goes back.
  pub record Stores (k v : List ℕ) (answer : OrbitcacheHdr → OrbitcacheHdr) (s : Store tommy)
      (r : Run (Served tommy OrbitcacheHdr)) : Type 0 where
    pub served : Served tommy OrbitcacheHdr
    pub returns : r ≡ ok served
    pub header : IsOrbitcacheHdr served.buf
    pub put : served.hashlin ≡ tommy_put tommy true s k v
    pub valid : IsValid tommy served.hashlin
    pub holds :
        (key : List ℕ)
        → tommy_get tommy served.hashlin key
          ≡ (if str_eq k key then some v else tommy_get tommy s key)
    pub datagram : List ℕ
    pub one_datagram : served.sent ≡ datagram ∷ []
    pub received :
        (client : OrbitcacheHdr)
        → IsOrbitcacheHdr client
        → recv_orbitcache datagram client ≡ answer client

  module _ (memory : Memory) {k : List ℕ} (h : OrbitcacheHdr) (asks : Asks k h) (s : Store tommy)
      (write : h.op ≡ op_write) where
    module _ (m : ℕ) (small : m ≤ max_value_size) (room : m ≤ memory.stack_left)
        (no_failure : memory.malloc_ok ≡ true) (valid : IsValid tommy s) where
      abbrev stored : List ℕ
      stored = letters m ++ until_nul memory.after_value

      value_read : value_str memory (size_t_sub (orbitcache_head + m) orbitcache_head) ≡ ok stored
      value_read =
          ap (value_str memory) (size_t_sub-add orbitcache_head m (omega arith))
          ∙ value_str-ok memory m room

      abbrev answer_of : OrbitcacheHdr × ℕ → Served tommy OrbitcacheHdr
      answer_of (reply, size) = record {
        buf = reply;
        hashlin = tommy_put tommy true s k stored;
        sent = send_orbitcache size reply ∷ [];
      }

      run_fetching :
          h.flag ≡ fetching
          → serve_write tommy memory (orbitcache_head + m) h s
            ≡ ok (answer_of (record h { op = op_w_reply; cached = 1 }, orbitcache_head + m))
      unfolding serve_write
      run_fetching e = rw (value_read, key_str-Asks memory h asks, no_failure) (ground arith)

      run_plain :
          h.flag ≢ fetching
          → serve_write tommy memory (orbitcache_head + m) h s
            ≡ ok (answer_of (record h { op = op_w_reply }, orbitcache_head + 0))
      unfolding serve_write
      run_plain e = rw (value_read, key_str-Asks memory h asks, no_failure) (ground arith)

      stores :
          (reply : OrbitcacheHdr) (size : ℕ) (answer : OrbitcacheHdr → OrbitcacheHdr)
          → serve_write tommy memory (orbitcache_head + m) h s ≡ ok (answer_of (reply, size))
          → IsOrbitcacheHdr reply
          → ((client : OrbitcacheHdr)
              → IsOrbitcacheHdr client
              → recv_orbitcache (send_orbitcache size reply) client ≡ answer client)
          → Stores k stored answer s (serve_orbitcache tommy memory (orbitcache_head + m) h s)
      stores reply size answer run fits arrives = record {
        served = answer_of (reply, size);
        returns = dispatch_write tommy memory h asks s (orbitcache_head + m) write ∙ run;
        header = fits;
        put = refl;
        valid = (tommy_get-tommy_put tommy s k stored valid []).0;
        holds = λ key. (tommy_get-tommy_put tommy s k stored valid key).1;
        datagram = send_orbitcache size reply;
        one_datagram = refl;
        received = arrives;
      }

      pub write-Stores :
          Stores k
            (letters m ++ until_nul memory.after_value)
            (write_answer m h)
            s
            (serve_orbitcache tommy memory (orbitcache_head + m) h s)
      write-Stores = elim (Bool-cases (h.flag == fetching)) [
        | inl fetch ↦
            stores (record h { op = op_w_reply; cached = 1 }) (orbitcache_head + m)
              (write_answer m h) (run_fetching ((==_iff h.flag fetching).0 fetch))
              (tags-IsOrbitcacheHdr asks.fits (omega (arith, asks.fits)))
              λ client c. rw fetch (
                recv_orbitcache-send_orbitcache (record h { op = op_w_reply; cached = 1 }) client m
                  (tags-IsOrbitcacheHdr asks.fits (omega (arith, asks.fits))) c small)
        | inr plain ↦
            stores (record h { op = op_w_reply }) (orbitcache_head + 0) (write_answer m h)
              (run_plain (λ e. absurd (ground (arith, plain))))
              (tags-IsOrbitcacheHdr asks.fits (omega (arith, asks.fits)))
              λ client c. rw plain (
                recv_orbitcache-send_orbitcache (record h { op = op_w_reply }) client 0
                  (tags-IsOrbitcacheHdr asks.fits (omega (arith, asks.fits))) c (omega arith))
      ]

    -- A write that is shorter than the head makes `value_size` wrap around, and the array on the
    -- stack too large for it.
    pub short_write-stack_overflow :
        (n : ℕ)
        → n < orbitcache_head
        → memory.stack_left + orbitcache_head < 2 ^ 64
        → serve_orbitcache tommy memory n h s ≡ fault stack_overflow
    unfolding serve_write
    short_write-stack_overflow n short limit =
        dispatch_write tommy memory h asks s n write ∙ overflows
      where
        no_room : value_str memory (size_t_sub n orbitcache_head) ≡ fault stack_overflow
        no_room =
            ap (value_str memory) (size_t_sub-wrap n orbitcache_head short (omega arith))
            ∙ value_str-overflow memory (n + 2 ^ 64 - orbitcache_head) (omega arith)

        overflows : serve_write tommy memory n h s ≡ fault stack_overflow
        overflows = rw (no_room, serve_write)

  -- A read that follows a write of the same key is answered with as many bytes as were written: the
  -- letters, with a NUL in place of the last. The byte behind the write's array is a NUL here.
  read_after_write :
      (memory memory' : Memory) {k : List ℕ} (w : OrbitcacheHdr)
      → Asks k w
      → (s : Store tommy) → w.op ≡ op_write
      → (m : ℕ) → m ≤ max_value_size
      → m ≤ memory.stack_left
      → memory.malloc_ok ≡ true
      → until_nul memory.after_value ≡ []
      → IsValid tommy s
      → (r : OrbitcacheHdr) → Asks k r
      → (r.op ≡ op_read) ⊎ (r.op ≡ op_crctn)
      → (served : Served tommy OrbitcacheHdr) × (serve_orbitcache tommy memory
            (orbitcache_head + m)
            w
            s
          ≡ ok served)
        × Answers tommy
            (read_answer (letters m) r)
            served.hashlin
            (serve_orbitcache tommy memory' orbitcache_head r served.hashlin)
  read_after_write memory memory' {k} w asks s write m small room no_failure ends valid r asks'
        which =
      let done = write-Stores memory w asks s write m small room no_failure valid in
      let value : tommy_get tommy done.served.hashlin k ≡ some (letters m) =
        done.holds k ∙ rw (str_eq_refl k, ends, append-nil (letters m)) in
      (
        done.served,
        done.returns,
        read-Answers tommy memory' r asks' done.served.hashlin orbitcache_head value
            (omega (arith, length-letters m)) which,
      )
