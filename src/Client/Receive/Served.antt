-- ===== src/Client/Receive/Served.antt =====
-- Replies of servers to an Rx worker of the OrbitCache protocol (client.c, `rx_t`).
use orbit_cache_public.Prelude.{
  ℕ, suc, ◌+◌, ◌≡◌, refl, sym, subst, ◌∙◌, ◌⊎◌, inl, inr, List, [], ◌∷◌, ◌++◌, Bool, ltb, true,
  false, some, length, All, append-nil, arith,
}
use orbit_cache_public.Run.{Run, ok, fault}
use orbit_cache_public.Packet.{op_r_reply, op_w_reply}
use orbit_cache_public.Packet.Orbitcache.{OrbitcacheHdr, IsOrbitcacheHdr, recv_orbitcache}
use orbit_cache_public.Server.Startup.{orbitcache}
use orbit_cache_public.Client.Main.{ClientArgs}
use orbit_cache_public.Client.Seq.{SeqHdrs}
use orbit_cache_public.Client.Request.{Sent}
use orbit_cache_public.Client.Reply.{Stats, par_index, par_counters, receive_orbitcache}
use orbit_cache_public.Client.Receive.Ends.{InCounters}
use orbit_cache_public.Text.{until_nul}
use orbit_cache_public.Client.Receive.{
  Arrival, Poll, Rx, elapsed_second, report_second, is_known, handle, take_in, rx_loop,
}

-- A reply that the client counts as one of a server, at an index that its array has.
abbrev pub IsServerReply : ℕ → OrbitcacheHdr → Type 0
IsServerReply workers buf =
    (((buf.op ≡ op_r_reply) × (buf.cached ≡ 0)) ⊎ (buf.op ≡ op_w_reply))
    × InCounters workers buf.org_key buf.value buf.par_id

-- So many replies, all of servers, and no correction.
pub record Counted (n : ℕ) (st : Stats) (st' : Stats) : Type 0 where
  pub replies : st'.pkt_counter ≡ st.pkt_counter + n
  pub of_servers : st'.pkt_counter_server ≡ st.pkt_counter_server + n
  pub of_cache : st'.pkt_counter_cache ≡ st.pkt_counter_cache
  pub collisions : st'.collision_counter ≡ st.collision_counter

abbrev CountsOne : Stats → Run (Stats × List Sent) → Type 0
CountsOne st (ok (st', sent)) = (sent ≡ []) × Counted 1 st st'
CountsOne st (fault e) = ⊥

receive_orbitcache-CountsOne :
    (workers now now' now'' : ℕ) (seq_hdrs : SeqHdrs) (buf : OrbitcacheHdr) (st : Stats)
    → IsServerReply workers buf
    → CountsOne st (receive_orbitcache workers now now' now'' seq_hdrs buf st)
unfolding receive_orbitcache
receive_orbitcache-CountsOne workers now now' now'' seq_hdrs buf st (inl (read, served), low) =
    let room : ltb (par_index workers (until_nul (buf.org_key ++ buf.value)) buf.par_id)
          par_counters
        ≡ true =
      ground (arith, low) in
    rw (read, served, room) (refl, omega arith)
receive_orbitcache-CountsOne workers now now' now'' seq_hdrs buf st (inr written, low) =
    let room : ltb (par_index workers (until_nul (buf.org_key ++ buf.value)) buf.par_id)
          par_counters
        ≡ true =
      ground (arith, low) in
    rw (written, room) (refl, omega arith)

-- The clock and the buffer at a round that a datagram is received in.
pub record Reading : Type 0 where
  pub poll : Poll
  pub arrival : Arrival

abbrev pub with_datagram : List ℕ → Reading → Poll
with_datagram d r = record r.poll { received = some (record r.arrival { datagram = d }) }

-- The datagrams, one a round.
abbrev pub received_in : List Reading → List (List ℕ) → List Poll
received_in [] ds = []
received_in (r ∷ rs) [] = []
received_in (r ∷ rs) (d ∷ ds) = with_datagram d r ∷ received_in rs ds

-- No second passes between two rounds, and the buffer is a header.
abbrev pub Prompt : List Reading → ℕ → Type 0
Prompt [] timer = Unit
Prompt (r ∷ rs) timer =
    (elapsed_second r.poll.timer_test timer ≡ false)
    × IsOrbitcacheHdr r.arrival.over_orbitcache
    × Prompt rs r.poll.later

-- A datagram that leaves a reply of a server in any buffer.
abbrev pub Replies : ℕ → List ℕ → Type 0
Replies workers d =
    (client : OrbitcacheHdr)
    → IsOrbitcacheHdr client
    → IsServerReply workers (recv_orbitcache d client)

-- What a round changes that takes in one reply of a server.
abbrev RoundCounts : Poll → Rx → Run Rx → Type 0
RoundCounts poll rx (ok next) =
    Counted 1 rx.stats next.stats × (next.corrections ≡ rx.corrections) × (next.timer ≡ poll.later)
RoundCounts poll rx (fault e) = ⊥

-- The loop is not left, sends no correction, and has counted so many replies.
abbrev pub LoopCounts : ℕ → Rx → Run (Bool × Rx) → Type 0
LoopCounts n rx (ok (left, rx')) =
    (left ≡ false) × Counted n rx.stats rx'.stats × (rx'.corrections ≡ rx.corrections)
LoopCounts n rx (fault e) = ⊥

report_second-Counted :
    (poll : Poll) (rx : Rx)
    → Counted 0 rx.stats (report_second poll rx).stats
      × ((report_second poll rx).corrections ≡ rx.corrections)
      × ((report_second poll rx).timer ≡ rx.timer)
unfolding report_second
report_second-Counted poll rx = ground arith

LoopCounts-step :
    (n : ℕ) (poll : Poll) (rx : Rx) (loop : Rx → Run (Bool × Rx))
    → ((next : Rx) → next.timer ≡ poll.later → LoopCounts n next (loop next))
    → (r : Run Rx) → RoundCounts poll (report_second poll rx) r
    → LoopCounts (suc n) rx (elim r [ ok next ↦ loop next | fault e ↦ fault e ])
LoopCounts-step n poll rx loop others (ok next) (counted, corrections, timer) =
    ended (loop next) (others next timer)
  where
    ended : (m : Run (Bool × Rx)) → LoopCounts n next m → LoopCounts (suc n) rx m
    ended (ok (left, rx')) (stays, rest, same) = (
      stays,
      omega (arith, rest, counted, (report_second-Counted poll rx).0),
      same ∙ corrections ∙ (report_second-Counted poll rx).1,
    )
    ended (fault e) h = h
LoopCounts-step n poll rx loop others (fault e) h = h

module _ (workers : ℕ) (args : ClientArgs) (protocol : args.protocol_id ≡ orbitcache) where
  handle-CountsOne :
      (a : Arrival) (st : Stats)
      → IsServerReply workers (recv_orbitcache a.datagram a.over_orbitcache)
      → CountsOne st (handle workers args a st)
  unfolding handle
  handle-CountsOne a st reply = rw protocol (
      receive_orbitcache-CountsOne workers a.now a.now' a.now'' a.seq_hdrs
        (recv_orbitcache a.datagram a.over_orbitcache) st reply)

  take_in-RoundCounts :
      (poll : Poll) (a : Arrival) (rx : Rx)
      → IsServerReply workers (recv_orbitcache a.datagram a.over_orbitcache)
      → RoundCounts poll rx (take_in workers args poll (some a) rx)
  unfolding take_in
  take_in-RoundCounts poll a rx reply =
      counts (handle workers args a rx.stats) (handle-CountsOne a rx.stats reply)
    where
      counts :
          (r : Run (Stats × List Sent))
          → CountsOne rx.stats r
          → RoundCounts poll rx (elim r [
            | ok (st, sent) ↦
                ok (record rx {
                  stats = st;
                  corrections = rx.corrections ++ sent;
                  timer = poll.later;
                })
            | fault e ↦ fault e
          ])
      counts (ok (st, sent)) (none_sent, counted) =
          (counted, rw none_sent (append-nil rx.corrections), refl)
      counts (fault e) h = h

  -- An Rx worker that receives replies of servers alone, one a round and each within a second of the last,
  -- does not fail or leave its loop; it counts each reply once, and sends no correction.
  pub rx_loop-LoopCounts :
      (readings : List Reading) (ds : List (List ℕ)) (rx : Rx)
      → length readings ≡ length ds
      → All (Replies workers) ds
      → Prompt readings rx.timer
      → LoopCounts (length ds) rx (rx_loop workers args (received_in readings ds) rx)
  unfolding rx_loop
  rx_loop-LoopCounts [] [] rx same replies prompt = (refl, omega arith, refl)
  rx_loop-LoopCounts (r ∷ readings) (d ∷ ds) rx same replies prompt =
      let poll = with_datagram d r in
      let a = record r.arrival { datagram = d } in
      let known : is_known workers args ≡ true = rw protocol refl in
      rw (prompt.0, known)
        (LoopCounts-step (length ds) poll rx (rx_loop workers args (received_in readings ds))
          (λ next restarted.
            rx_loop-LoopCounts readings ds next (omega (arith, same)) replies.1
              (subst (Prompt readings) (sym restarted) prompt.2))
          (take_in workers args poll (some a) (report_second poll rx))
          (take_in-RoundCounts poll a (report_second poll rx)
            (replies.0 r.arrival.over_orbitcache prompt.1)))
  rx_loop-LoopCounts [] (d ∷ ds) rx same replies prompt = absurd (omega (arith, same))
  rx_loop-LoopCounts (r ∷ readings) [] rx same replies prompt = absurd (omega (arith, same))
