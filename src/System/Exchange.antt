-- ===== src/System/Exchange.antt =====
-- OrbitCache requests of a client (client.c, `tx_t`), a worker that answers them (server.c), and the Rx
-- worker of the client that takes the answers in (client.c, `rx_t`).
use orbit_cache_public.Prelude.{
  ℕ, suc, ◌+◌, ◌≤◌, ◌^◌, ◌%◌, ◌≡◌, refl, ap, sym, subst, ◌∙◌, inl, inr, List, [], ◌∷◌, ◌++◌, map,
  All, true, leb, Bool-cases, length,
}
use orbit_cache_public.Run.{ok}
use orbit_cache_public.Packet.Orbitcache.{OrbitcacheHdr, IsOrbitcacheHdr}
use orbit_cache_public.Key.Laws.{key_of}
use orbit_cache_public.Routing.{max_workers, partition_of}
use orbit_cache_public.Routing.Laws.{partition_of-lt}
use orbit_cache_public.Client.Reply.Laws.{par_index-lt}
use orbit_cache_public.Store.HashTable.{Tommy}
use orbit_cache_public.Server.Startup.{orbitcache}
use orbit_cache_public.Server.Memory.{Memory}
use orbit_cache_public.Server.Values.{Values}
use orbit_cache_public.Server.Window.{limit_rps, Window, Round}
use orbit_cache_public.Server.Load.{Place, prepare_data}
use orbit_cache_public.Server.Load.Holds.{initial_values}
use orbit_cache_public.Server.Loop.{Progress, receive_loop, orbitcache_protocol}
use orbit_cache_public.Server.Loop.Refines.{Arrive, ArriveAll}
use orbit_cache_public.Client.Main.{ClientArgs}
use orbit_cache_public.Client.Receive.{Rx, rx_loop}
use orbit_cache_public.Client.Receive.Served.{
  IsServerReply, Reading, received_in, Prompt, Replies, LoopCounts, rx_loop-LoopCounts,
}
use orbit_cache_public.System.Items.{answers_to}
use orbit_cache_public.System.Requests.{
  Item, delivery, answer_to, after, Comes, prepared_loop-completes,
}

-- An answer of one datagram that leaves a reply of a server in the buffer of the client.
abbrev FromServer : ℕ → List (OrbitcacheHdr → OrbitcacheHdr) → Type 0
FromServer workers [] = ⊥
FromServer workers (a ∷ []) = (client : OrbitcacheHdr) → IsServerReply workers (a client)
FromServer workers (a ∷ b ∷ others) = ⊥

answer_to-FromServer :
    (workers wratio : ℕ)
    → 1 ≤ workers
    → workers ≤ max_workers
    → (values : Values) (item : Item) → FromServer workers (answer_to workers wratio values item)
answer_to-FromServer workers wratio some_worker few values item =
    let low = λ (key : List ℕ).
      par_index-lt workers (partition_of workers (key_of item.draw.key_value)) key few
        (partition_of-lt workers (key_of item.draw.key_value) some_worker few) in
    elim (Bool-cases (leb wratio (item.draw.write_draw % 100))) [
      | inl read ↦ rw read (λ client. (inl (refl, refl), low _))
      | inr write ↦ rw write (λ client. (inr refl, low _))
    ]

-- The datagrams of the answers, one after the other.
abbrev pub all_datagrams : List (List (List ℕ)) → List (List ℕ)
all_datagrams [] = []
all_datagrams (ds ∷ sent) = ds ++ all_datagrams sent

module _ (workers wratio : ℕ) (tommy : Tommy) (some_worker : 1 ≤ workers)
    (few : workers ≤ max_workers) where
  one_reply :
      (answer : List (OrbitcacheHdr → OrbitcacheHdr)) (ds : List (List ℕ))
      → FromServer workers answer
      → Arrive (orbitcache_protocol tommy) IsOrbitcacheHdr answer ds
      → (d : List ℕ) × (ds ≡ d ∷ []) × Replies workers d
  one_reply (a ∷ []) (d ∷ []) served arrive = (
    d,
    refl,
    λ client fits. subst (IsServerReply workers) (sym (arrive.0 client fits)) (served client),
  )
  one_reply [] ds served arrive = absurd served
  one_reply (a ∷ []) [] served arrive = absurd arrive
  one_reply (a ∷ []) (d ∷ e ∷ ds) served arrive = absurd arrive.1
  one_reply (a ∷ b ∷ others) ds served arrive = absurd served

  -- Each request is answered with one datagram, a reply of a server.
  answers-Replies :
      (values : Values) (items : List Item) (sent : List (List (List ℕ)))
      → ArriveAll
          (orbitcache_protocol tommy)
          IsOrbitcacheHdr
          (answers_to (answer_to workers wratio) (after workers wratio) values items)
          sent
      → (length (all_datagrams sent) ≡ length items) × All (Replies workers) (all_datagrams sent)
  answers-Replies values [] [] arrive = (refl, tt)
  answers-Replies values (item ∷ items) (ds ∷ sent) arrive =
      let (d, one, replies) =
        one_reply (answer_to workers wratio values item) ds
          (answer_to-FromServer workers wratio some_worker few values item) arrive.0 in
      let (count, others) =
        answers-Replies (after workers wratio values item) items sent arrive.1 in
      rw one (ap suc count, (replies, others))
  answers-Replies values [] (ds ∷ sent) arrive = absurd arrive
  answers-Replies values (item ∷ items) [] arrive = absurd arrive

-- Let `malloc` not fail, let there be 1 to 16 workers on a server, as many for the clients as for the
-- worker, and let each request have room on the stack for the array of its value, with a NUL in the
-- byte behind that array, which the code does not write. A worker of the OrbitCache protocol has
-- prepared its data, requests of clients for numbers of the data set, sent to it, are in its socket,
-- there is room for them in its window, and `recvfrom` finds one in each round. Then its loop answers
-- them all. Where an Rx worker of the protocol receives these answers, as many as there are requests,
-- one a round and each within a second of the last, it does not fail and stays in its loop, counts
-- every one once, as a reply of a server and none as one of the cache, finds no collision, and sends
-- no correction.
pub exchange_lem :
    (workers wratio : ℕ) (args : ClientArgs)
    → args.protocol_id ≡ orbitcache
    → 1 ≤ workers
    → workers ≤ max_workers
    → (place : Place) (size : ℕ) → size ≤ 2 ^ 64
    → (tommy : Tommy) (memory : Memory) (rand : ℕ → ℕ) (key_str : List ℕ) → memory.malloc_ok ≡ true
    → length key_str ≡ 16
    → (items : List Item) → All (Comes workers wratio place size) items
    → (rs : List Round) → length items ≤ length rs
    → All (λ r. r.arrived ≡ true) rs
    → (window : Window) → window.rx_counter + length items ≤ limit_rps
    → (buf : OrbitcacheHdr) → IsOrbitcacheHdr buf
    → (readings : List Reading) → length readings ≡ length items
    → (rx : Rx) → Prompt readings rx.timer
    → (o : Progress tommy OrbitcacheHdr) × (receive_loop
          (orbitcache_protocol tommy)
          rs
          (map (delivery workers wratio) items)
          (record {
            window = window;
            buf = buf;
            hashlin = prepare_data tommy memory place rand size key_str;
          })
        ≡ ok o)
      × (o.queue ≡ [])
      × LoopCounts
          (length items)
          rx
          (rx_loop workers args (received_in readings (all_datagrams o.sent)) rx)
exchange_lem workers wratio args protocol some_worker few place size size_le tommy memory rand
      key_str no_failure key_length items comes rs many arrived window room buf fits readings same
      rx prompt =
    let (o, run, empty, holds, arrive) =
      prepared_loop-completes workers wratio some_worker few place size size_le tommy memory rand
        key_str no_failure key_length items comes rs many arrived window room buf fits in
    let (count, replies) =
      answers-Replies workers wratio tommy some_worker few (initial_values place rand size) items
        o.sent arrive in
    (
      o,
      run,
      empty,
      subst
          (λ n.
            LoopCounts n rx (rx_loop workers args (received_in readings (all_datagrams o.sent)) rx))
          count
          (rx_loop-LoopCounts workers args protocol readings (all_datagrams o.sent) rx
            (same ∙ sym count) replies prompt),
    )
