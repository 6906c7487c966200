-- ===== src/Preload/Laws.antt =====
-- What the switch receives before a run.
use orbit_cache_public.Prelude.{
  ℕ, zero, suc, ◌+◌, ◌*◌, ◌≤◌, ◌<◌, ◌≡◌, refl, ap, sym, subst, ◌∙◌, ◌⊎◌, List, [], ◌∷◌, ◌++◌, leb,
  ◌==◌, if◌then◌else◌, replicate, length, length-append, length-replicate, arith, get_or,
  Bool-cases, inl, inr,
}
use orbit_cache_public.Text.{overwrite}
use orbit_cache_public.Text.Laws.{take-overwrite, length-overwrite}
use orbit_cache_public.Hash.{hash64_str, hash64_str2}
use orbit_cache_public.Key.Laws.{key_of, length-key_of, tostring_key-eq-key_of, tostring_key-IsKey}
use orbit_cache_public.Packet.{max_value_size, op_w_reply, fetching}
use orbit_cache_public.Packet.Endian.{htonll, htonll-lt}
use orbit_cache_public.Packet.Orbitcache.{
  OrbitcacheHdr, IsOrbitcacheHdr, blank_orbitcache, orbitcache_head, send_orbitcache,
  recv_orbitcache, recv_orbitcache-send_orbitcache,
}
use orbit_cache_public.Client.Request.{Draw}
use orbit_cache_public.Client.Request.Laws.{read_request}
use orbit_cache_public.Preload.{
  value_size, preload_packet, preload_datagram, Preloaded, preload_round, preload_loop, preload,
}

-- The first `n` packets: the counters add up, and the large ones are the first 18 of 100.
record Counted (n i : ℕ) (p : Preloaded) : Type 0 where
  total : p.n_small + p.n_large ≡ i
  many : length p.sent ≡ i
  few_large : 100 * p.n_large < 18 * n + 100
  all_large : (p.n_small ≡ 0) ⊎ (18 * n ≤ 100 * p.n_large)
  each : (j : ℕ) → j < i → get_or p.sent j [] ≡ preload_datagram n j

get_or-append :
    (l : List (List ℕ)) (x : List ℕ) (j : ℕ)
    → get_or (l ++ x ∷ []) j [] ≡ (if j == length l then x else get_or l j [])
get_or-append [] x zero = refl
get_or-append [] x (suc j) = ground arith
get_or-append (y ∷ l) x zero = ground arith
get_or-append (y ∷ l) x (suc j) = ground (arith, get_or-append l x j)

Counted-preload_round :
    (n i : ℕ) (p : Preloaded) → i < n → Counted n i p → Counted n (i + 1) (preload_round n i p)
unfolding preload_round
Counted-preload_round n i p lt c = elim (Bool-cases (leb (18 * n) (i * 100))) [
  | inl s ↦ rw s (record {
    total = omega (arith, c.total);
    many = length-append p.sent (preload_datagram n i ∷ []) ∙ omega (arith, c.many);
    few_large = c.few_large;
    all_large = ground (arith, s, c.all_large, c.total);
    each = λ j l. ground (arith, get_or-append p.sent (preload_datagram n i) j, c.many, c.each j);
  })
  | inr b ↦ rw b (record {
    total = omega (arith, c.total);
    many = length-append p.sent (preload_datagram n i ∷ []) ∙ omega (arith, c.many);
    few_large = ground (arith, b, c.total);
    all_large = ground (arith, b, c.all_large, c.total);
    each = λ j l. ground (arith, get_or-append p.sent (preload_datagram n i) j, c.many, c.each j);
  })
]

Counted-preload_loop :
    (left n i : ℕ) (p : Preloaded)
    → i + left ≡ n
    → Counted n i p
    → Counted n n (preload_loop left n i p)
unfolding preload_loop
Counted-preload_loop zero n i p e c = subst (λ (m : ℕ). Counted n m p) (omega arith) c
Counted-preload_loop (suc left) n i p e c =
    Counted-preload_loop left n (i + 1) (preload_round n i p) (omega arith)
      (Counted-preload_round n i p (omega arith) c)

-- The preload of `n` keys sends one packet for each of the keys from 0 on, in order; the counters add
-- up to `n`, and the number of large values is 18 of 100 rounded up.
pub preload_lem :
    (n : ℕ)
    → ((preload n).n_small + (preload n).n_large ≡ n)
      × (length (preload n).sent ≡ n)
      × ((j : ℕ) → j < n → get_or (preload n).sent j [] ≡ preload_datagram n j)
      × (18 * n ≤ 100 * (preload n).n_large)
      × (100 * (preload n).n_large < 18 * n + 100)
unfolding preload
preload_lem n =
    let c : Counted n n (preload_loop n n 0 (record { n_small = 0; n_large = 0; sent = [] })) =
      Counted-preload_loop n n 0 (record { n_small = 0; n_large = 0; sent = [] }) (omega arith)
        (record {
          total = refl;
          many = refl;
          few_large = omega arith;
          all_large = inl refl;
          each = λ j l. absurd (omega arith);
        }) in
    (c.total, c.many, c.each, omega (arith, c.total, c.all_large), c.few_large)

-- The packet of a key, as a well-formed header.
abbrev pub cache_packet : ℕ → List ℕ → OrbitcacheHdr
cache_packet i value =
    let key = key_of i in
    record blank_orbitcache {
      op = op_w_reply;
      flag = fetching;
      cached = 1;
      org_key = key ++ 0 ∷ [];
      hkey_hi = htonll (hash64_str key);
      hkey_lo = htonll (hash64_str2 key);
      value = value;
    }

blank_key : length blank_orbitcache.org_key ≡ 16
blank_key = length-replicate {A = ℕ} 16 0

preload_packet-eq-cache_packet : (i : ℕ) → preload_packet i ≡ cache_packet i blank_orbitcache.value
unfolding preload_packet
preload_packet-eq-cache_packet i = rw (
  tostring_key-IsKey i blank_orbitcache.org_key blank_orbitcache.value blank_key,
  tostring_key-eq-key_of i blank_orbitcache.org_key blank_key,
)

cache_packet-IsOrbitcacheHdr :
    (i : ℕ) (value : List ℕ)
    → length value ≡ max_value_size
    → IsOrbitcacheHdr (cache_packet i value)
cache_packet-IsOrbitcacheHdr i value h = record {
  op_fits = omega arith;
  seq_fits = omega arith;
  hkey_hi_fits = htonll-lt (hash64_str (key_of i));
  hkey_lo_fits = htonll-lt (hash64_str2 (key_of i));
  flag_fits = omega arith;
  cached_fits = omega arith;
  latency_fits = omega arith;
  par_id_fits = omega arith;
  key_length = omega (arith, length-append {0} (key_of i) (0 ∷ []), length-key_of i);
  value_length = h;
}

value_size-le : (n i : ℕ) → value_size n i ≤ max_value_size
value_size-le n i = ground arith

-- The packet of key `i`, received over any buffer, is a write reply that asks to be cached, with as
-- many zero bytes of value as the key's size, and it carries the key and the two hashes that a
-- client's read request for that key carries.
preload_datagram_lem :
    (n i : ℕ) (buf : OrbitcacheHdr)
    → IsOrbitcacheHdr buf
    → (workers : ℕ) (draw : Draw) (seq_global : ℕ) → draw.key_value ≡ i
    → let packet = recv_orbitcache (preload_datagram n i) buf in
      let request = read_request workers draw seq_global in
      (packet ≡ cache_packet i (overwrite (replicate (value_size n i) 0) buf.value))
      × (packet.org_key ≡ request.org_key)
      × (packet.hkey_hi ≡ request.hkey_hi)
      × (packet.hkey_lo ≡ request.hkey_lo)
unfolding preload_datagram
preload_datagram_lem n i buf fits workers draw seq_global e = (
  arrives,
  ap (λ (h : OrbitcacheHdr). h.org_key) arrives ∙ ap (λ (k : ℕ). key_of k ++ 0 ∷ []) (sym e),
  ap (λ (h : OrbitcacheHdr). h.hkey_hi) arrives
      ∙ ap (λ (k : ℕ). htonll (hash64_str (key_of k))) (sym e),
  ap (λ (h : OrbitcacheHdr). h.hkey_lo) arrives
      ∙ ap (λ (k : ℕ). htonll (hash64_str2 (key_of k))) (sym e),
)
  where
    zeros : List ℕ
    zeros = replicate (value_size n i) 0

    zeros_length : length zeros ≡ value_size n i
    zeros_length = length-replicate {A = ℕ} (value_size n i) 0

    blank_length : length blank_orbitcache.value ≡ max_value_size
    blank_length = length-replicate {A = ℕ} max_value_size 0

    arrives :
        recv_orbitcache (preload_datagram n i) buf ≡ cache_packet i (overwrite zeros buf.value)
    arrives =
        ap
          (λ (p : OrbitcacheHdr).
            recv_orbitcache
              (send_orbitcache (orbitcache_head + value_size n i)
                (record p { value = overwrite zeros p.value }))
              buf)
          (preload_packet-eq-cache_packet i)
        ∙ recv_orbitcache-send_orbitcache (cache_packet i (overwrite zeros blank_orbitcache.value))
            buf (value_size n i)
            (cache_packet-IsOrbitcacheHdr i (overwrite zeros blank_orbitcache.value)
              (length-overwrite zeros blank_orbitcache.value ∙ blank_length))
            fits (value_size-le n i)
        ∙ ap (λ w. cache_packet i (overwrite w buf.value))
            (take-overwrite (value_size n i) zeros blank_orbitcache.value zeros_length
              (omega (arith, zeros_length, blank_length, value_size-le n i)))
