-- ===== src/Server/Report/Laws.antt =====
-- What is reported, and that a report starts the counting anew; which keys are counted.
use orbit_cache_public.Prelude.{
  ℕ, zero, suc, ◌+◌, ◌-◌, ◌^◌, ◌≤◌, ◌<◌, ◌≡◌, ◌≢◌, refl, subst, List, [], ◌∷◌, map, true, false,
  ◌||◌, ◌==◌, ltb, leb, u64, if◌then◌else◌, take, drop, length, Bool-cases, Option-cases, inl, inr,
  arith,
}
use orbit_cache_public.Run.{Run, ok, OnOk, OnOk-if, OnOk-bind, ◌>>=◌}
use orbit_cache_public.Packet.{
  op_read, op_r_reply, op_f_reply, op_crctn, op_write, op_fetch, max_value_size,
}
use orbit_cache_public.Packet.Orbitcache.{OrbitcacheHdr, orbitcache_head}
use orbit_cache_public.Popularity.Sketch.{empty_sketch, popularity_loop, get_popularity, update_cms}
use orbit_cache_public.Popularity.TopK.{TopKItem, item_at, update_top_k, reset_report}
use orbit_cache_public.Store.HashTable.{Tommy}
use orbit_cache_public.Store.{Store, tommy_get}
use orbit_cache_public.Server.Memory.{Memory, Served, value_str, size_t_sub}
use orbit_cache_public.Server.Orbitcache.{
  org_key_str, serve_read, serve_fetch, serve_write, serve_orbitcache, key_str,
}
use orbit_cache_public.Server.Window.{limit_rps, refresh, turn}
use orbit_cache_public.Server.Report.{
  report_of, report_bytes, report_loop, Hot, report_hot, count_key, Input, Loop, serve_round,
  orbitcache_round,
}

popularity_loop_zero : (left i : ℕ) (key : List ℕ) → popularity_loop left i 0 empty_sketch key ≡ 0
unfolding popularity_loop
popularity_loop_zero zero i key = refl
popularity_loop_zero (suc left) i key = popularity_loop_zero left (i + 1) key

get_popularity-empty : (key : List ℕ) → get_popularity empty_sketch key ≡ 0
unfolding get_popularity popularity_loop
get_popularity-empty key = popularity_loop_zero 4 1 key

drop-get_or :
    (items : List TopKItem) (i : ℕ)
    → i < length items
    → drop i items ≡ item_at items i ∷ drop (suc i) items
drop-get_or [] i lt = absurd (omega arith)
drop-get_or (x ∷ items) zero lt = refl
drop-get_or (x ∷ items) (suc i) lt = drop-get_or items i (omega arith)

-- The items that more than 100 requests asked for, as the sketch counts.
abbrev pub popular : List TopKItem → List TopKItem
popular [] = []
popular (item ∷ items) = if ltb 100 item.popularity then item ∷ popular items else popular items

report_loop_lem :
    (left i : ℕ) (items : List TopKItem)
    → i + left ≤ length items
    → report_loop left i items
      ≡ map (λ item. report_bytes (report_of item)) (popular (take left (drop i items)))
unfolding report_loop
report_loop_lem zero i items fits = refl
report_loop_lem (suc left) i items fits =
    let rest : report_loop left (i + 1) items
        ≡ map (λ item. report_bytes (report_of item)) (popular (take left (drop (suc i) items))) =
      subst
        (λ m.
          report_loop left (i + 1) items
          ≡ map (λ item. report_bytes (report_of item)) (popular (take left (drop m items))))
        {x = i + 1} {y = suc i} (omega arith) (report_loop_lem left (i + 1) items (omega arith)) in
    rw (drop-get_or items i (omega arith)) (ground (arith, rest))

-- Once more than a second has passed since the last report, a dynamic worker sends the popular ones of
-- the items in use, in their order, and starts to count anew: no key has been asked for, and the report
-- is empty.
pub report_hot_lem :
    (now later : ℕ) (hot : Hot)
    → 10 ^ 9 < u64 (now + 2 ^ 64 - hot.start_time_dynamic)
    → hot.top_k.count ≤ length hot.top_k.items
    → ((report_hot now later hot).0
        ≡ map
            (λ item. report_bytes (report_of item))
            (popular (take hot.top_k.count hot.top_k.items)))
      × ((key : List ℕ) → get_popularity (report_hot now later hot).1.cms key ≡ 0)
      × ((report_hot now later hot).1.top_k.count ≡ 0)
      × ((report_hot now later hot).1.start_time_dynamic ≡ later)
unfolding report_hot reset_report
report_hot_lem now later hot passed fits =
    let due : ltb (10 ^ 9) (u64 (now + 2 ^ 64 - hot.start_time_dynamic)) ≡ true =
      ground (arith, passed) in
    rw due (
      report_loop_lem hot.top_k.count 0 hot.top_k.items (omega arith),
      get_popularity-empty,
      refl,
      refl,
    )

module _ (tommy : Tommy) (memory : Memory) where
  abbrev NotFetch : Run (Served tommy OrbitcacheHdr) → Type 0
  NotFetch = OnOk (λ served. served.buf.op ≢ op_fetch)

  reply_op : op_r_reply ≢ op_fetch
  reply_op = omega arith

  fetch_reply_op : op_f_reply ≢ op_fetch
  fetch_reply_op = omega arith

  read-NotFetch :
      (buf : OrbitcacheHdr) (hashlin : Store tommy) → NotFetch (serve_read tommy memory buf hashlin)
  unfolding serve_read
  read-NotFetch buf hashlin = elim (Option-cases (tommy_get tommy hashlin (key_str memory buf))) [
    | inl lost ↦ rw lost tt
    | inr (v, found) ↦ elim (Bool-cases (leb (length v) max_value_size)) [
      | inl small ↦ rw (found, small) reply_op
      | inr big ↦ rw (found, big) tt
    ]
  ]

  fetch-NotFetch :
      (buf : OrbitcacheHdr) (hashlin : Store tommy)
      → NotFetch (serve_fetch tommy memory buf hashlin)
  unfolding serve_fetch
  fetch-NotFetch buf hashlin = elim (Option-cases (tommy_get tommy hashlin (key_str memory buf))) [
    | inl lost ↦ rw lost tt
    | inr (v, found) ↦ elim (Bool-cases (leb (length v) max_value_size)) [
      | inl small ↦ rw (found, small) fetch_reply_op
      | inr big ↦ rw (found, big) tt
    ]
  ]

  write-NotFetch :
      (n : ℕ) (buf : OrbitcacheHdr) (hashlin : Store tommy)
      → NotFetch (serve_write tommy memory n buf hashlin)
  unfolding serve_write
  write-NotFetch n buf hashlin =
      OnOk-bind (λ served. served.buf.op ≢ op_fetch)
        (value_str memory (size_t_sub n orbitcache_head)) _ (λ value. ground arith)

  -- Whatever a request is, the buffer that its handler leaves is no fetch request.
  serve_orbitcache-NotFetch :
      (n : ℕ) (buf : OrbitcacheHdr) (hashlin : Store tommy)
      → NotFetch (serve_orbitcache tommy memory n buf hashlin)
  unfolding serve_orbitcache
  serve_orbitcache-NotFetch n buf hashlin = elim (Bool-cases (buf.op == op_fetch)) [
    | inl fetch ↦
        let no_read : (buf.op == op_read || buf.op == op_crctn) ≡ false = ground (arith, fetch) in
        rw (no_read, fetch) (fetch-NotFetch buf hashlin)
    | inr other ↦ rw other (
        OnOk-if _ (buf.op == op_read || buf.op == op_crctn) _ _ (read-NotFetch buf hashlin) (
          OnOk-if _ (buf.op == op_write) _ _ (write-NotFetch n buf hashlin)
            (ground (arith, other))))
  ]

  -- After any request that is served, its key is counted: the test for a fetch request comes after the
  -- handler has made it a fetch reply.
  count_key-always :
      (n : ℕ) (buf : OrbitcacheHdr) (hashlin : Store tommy) (served : Served tommy OrbitcacheHdr)
      (hot : Hot)
      → serve_orbitcache tommy memory n buf hashlin ≡ ok served
      → ((count_key served.buf hot).cms ≡ update_cms hot.cms (org_key_str served.buf))
        × ((count_key served.buf hot).top_k
            ≡ update_top_k
                (update_cms hot.cms (org_key_str served.buf))
                hot.top_k
                (org_key_str served.buf))
  unfolding count_key
  count_key-always n buf hashlin served hot e =
      let no_fetch : served.buf.op ≢ op_fetch =
        subst NotFetch e (serve_orbitcache-NotFetch n buf hashlin) in
      let counted : (served.buf.op == op_fetch) ≡ false = ground (arith, no_fetch) in
      rw counted (refl, refl)

  -- In a static worker, a round is the receive limit of the window, and the handler for a datagram that
  -- is taken.
  pub orbitcache_round-static :
      (i : Input) (st : Loop tommy)
      → orbitcache_round false tommy memory i st ≡ (
          let (w, taken) = turn i.clock st.window in
          if taken
          then (serve_orbitcache tommy memory i.n i.buf st.hashlin >>= λ served. ok (
            record { window = w; hot = st.hot; hashlin = served.hashlin },
            record { replies = served.sent; reports = [] },
          ))
          else ok (record st { window = w }, record { replies = []; reports = [] }))
  unfolding orbitcache_round serve_round turn
  orbitcache_round-static i st =
      elim (Bool-cases (leb limit_rps (refresh i.clock st.window).rx_counter)) [
        | inl full ↦ rw full refl
        | inr room ↦ elim (Bool-cases i.clock.arrived) [
          | inl some_bytes ↦ rw (room, some_bytes) refl
          | inr nothing ↦ rw (room, nothing) refl
        ]
      ]
