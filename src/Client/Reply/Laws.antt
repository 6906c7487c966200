-- ===== src/Client/Reply/Laws.antt =====
-- The counters and logs add up, and a collision is recovered.
use orbit_cache_public.Prelude.{
  ℕ, ◌+◌, ◌*◌, ◌≤◌, ◌<◌, ◌≡◌, List, [], ◌∷◌, ◌++◌, length, length-append, take_of_length,
  if◌then◌else◌, arith, some, Option-cases, Bool, Bool-cases, inl, inr, ◌==◌, ltb,
}
use native.Mathlib.Nat.{mul-le-mul_left}
use orbit_cache_public.Text.{until_nul, strncmp_eq, str_eq}
use orbit_cache_public.Text.Laws.{Spells, until_nul-array, length-Spells}
use orbit_cache_public.Run.{Run, ok, OnOk, OnOk-if}
use orbit_cache_public.Packet.{op_r_reply, op_w_reply, missed}
use orbit_cache_public.Packet.Endian.{ntohl}
use orbit_cache_public.Packet.Orbitcache.{OrbitcacheHdr}
use orbit_cache_public.Routing.{max_workers, dst_addr}
use orbit_cache_public.Routing.Laws.{dst_addr-lt}
use orbit_cache_public.Client.Seq.{SeqHdrs, seq_get, key_size}
use orbit_cache_public.Client.Request.{Sent}
use orbit_cache_public.Client.Reply.{
  Stats, par_index, par_counters, receive_orbitcache, check_collision, correction, elapsed,
}

-- Each counted reply is counted once, for the cache or for a server, and has its lines.
pub record IsConsistent (st : Stats) : Type 0 where
  pub split : st.pkt_counter ≡ st.pkt_counter_cache + st.pkt_counter_server
  pub miss : st.pkt_counter_miss ≤ st.pkt_counter_server
  pub lines : length st.log ≡ st.pkt_counter
  pub cache_lines : length st.log_cache ≡ st.pkt_counter_cache
  pub server_lines : length st.log_server ≤ st.pkt_counter_server
  pub received : st.pkt_counter ≤ st.rx_counter
  pub collisions : st.collision_counter ≤ st.pkt_counter_cache

one_more : (l : List ℕ) (x : ℕ) → length (l ++ x ∷ []) ≡ length l + 1
one_more l x = length-append l (x ∷ [])

-- The index for the `par_id` of a worker is in the array.
pub par_index-lt :
    (workers par_id : ℕ) (key : List ℕ)
    → workers ≤ max_workers
    → par_id < workers
    → par_index workers key par_id < par_counters
par_index-lt workers par_id key few low =
    let rows : workers * dst_addr key ≤ workers * 3 =
      mul-le-mul_left workers (omega (arith, dst_addr-lt key)) in
    omega (arith, rows, few, low)

abbrev Kept : Run (Stats × List Sent) → Type 0
Kept = OnOk (λ r. IsConsistent r.0)

check_collision-IsConsistent :
    (workers now : ℕ) (seq_hdrs : SeqHdrs) (buf : OrbitcacheHdr) (st : Stats)
    → (st.collision_counter + 1 ≤ st.pkt_counter_cache)
    → IsConsistent st
    → Kept (check_collision workers now seq_hdrs buf st)
unfolding check_collision
check_collision-IsConsistent workers now seq_hdrs buf st h c =
    elim (Option-cases (seq_get seq_hdrs (ntohl buf.seq))) [
      | inl lost ↦ rw lost tt
      | inr (key, found) ↦
          elim (Bool-cases (strncmp_eq key_size (until_nul key) (until_nul buf.org_key))) [
            | inl same ↦ rw (found, same) c
            | inr other ↦ rw (found, other) (omega (arith, c))
          ]
    ]

-- An OrbitCache datagram, whatever it is, keeps the counters and the logs consistent, unless it
-- ends in a fault.
pub receive_orbitcache-IsConsistent :
    (workers now now' now'' : ℕ) (seq_hdrs : SeqHdrs) (buf : OrbitcacheHdr) (st : Stats)
    → IsConsistent st
    → OnOk (λ r. IsConsistent r.0) (receive_orbitcache workers now now' now'' seq_hdrs buf st)
unfolding receive_orbitcache
receive_orbitcache-IsConsistent workers now now' now'' seq_hdrs buf st c =
    elim (Bool-cases (buf.op == op_r_reply)) [
      | inl reply ↦ elim (Bool-cases (buf.cached == 1)) [
        | inl cached ↦
            rw (reply, cached)
              (check_collision-IsConsistent workers now'' seq_hdrs buf _ (omega (arith, c))
                (omega (arith, c, cache_line, line)))
        | inr direct ↦ elim (Bool-cases (buf.cached == missed)) [
          | inl miss ↦
              rw (reply, direct, miss) (OnOk-if _ room _ _ (omega (arith, c, server_line, line)) tt)
          | inr hit ↦
              rw (reply, direct, hit) (OnOk-if _ room _ _ (omega (arith, c, server_line, line)) tt)
        ]
      ]
      | inr other ↦ elim (Bool-cases (buf.op == op_w_reply)) [
        | inl write ↦
            rw (other, write) (OnOk-if _ room _ _ (omega (arith, c, server_line, line)) tt)
        | inr neither ↦ rw (other, neither) (omega (arith, c))
      ]
    ]
  where
    room : Bool
    room = ltb (par_index workers (until_nul (buf.org_key ++ buf.value)) buf.par_id) par_counters

    line : length (st.log ++ elapsed now buf.latency ∷ []) ≡ length st.log + 1
    line = one_more st.log (elapsed now buf.latency)

    cache_line : length (st.log_cache ++ elapsed now' buf.latency ∷ []) ≡ length st.log_cache + 1
    cache_line = one_more st.log_cache (elapsed now' buf.latency)

    server_line : length (st.log_server ++ elapsed now' buf.latency ∷ []) ≡ length st.log_server + 1
    server_line = one_more st.log_server (elapsed now' buf.latency)

-- With the key `k` in the table and the key `k'` in the reply, `check_collision` sends nothing if
-- they are the same, and else counts a collision and sends one correction.
pub check_collision_lem :
    (workers now : ℕ) (seq_hdrs : SeqHdrs) (buf : OrbitcacheHdr) (st : Stats) {k k' : List ℕ}
    (array : List ℕ)
    → seq_get seq_hdrs (ntohl buf.seq) ≡ some array
    → Spells k array
    → length array ≡ 16
    → Spells k' buf.org_key
    → length buf.org_key ≡ 16
    → check_collision workers now seq_hdrs buf st ≡ (
        if str_eq k k'
        then ok (st, [])
        else ok (
          record st { collision_counter = st.collision_counter + 1 },
          correction workers now (ntohl buf.seq) array ∷ [],
        ))
unfolding check_collision
check_collision_lem workers now seq_hdrs buf st {k} {k'} array found spells len spells' len' = rw (
  found,
  until_nul-array spells,
  until_nul-array spells',
  take_of_length 16 k (omega (arith, length-Spells spells)),
  take_of_length 16 k' (omega (arith, length-Spells spells')),
)
