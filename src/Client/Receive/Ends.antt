-- ===== src/Client/Receive/Ends.antt =====
-- That the loop of an Rx worker does not fail, and that it ends.
use orbit_cache_public.Prelude.{
  ℕ, ◌≡◌, ◌≢◌, ap, subst, ◌∙◌, sym, ◌⊎◌, inl, inr, Bool, true, false, ◌==◌, ◌||◌, ◌<◌, ltb,
  Bool-cases, List, [], ◌∷◌, ◌++◌, All, append-nil, Option, none, some, arith,
}
use orbit_cache_public.Prelude.Int.{eq_ℤ}
use orbit_cache_public.Text.{until_nul, strncmp_eq}
use orbit_cache_public.Run.{
  Run, ok, OnOk, Returns, Returns-if, Returns-ok, Returns-bind, Returns-split, Chosen,
}
use orbit_cache_public.Packet.{op_r_reply, op_w_reply, missed}
use orbit_cache_public.Packet.Endian.{ntohl}
use orbit_cache_public.Packet.Orbitcache.{OrbitcacheHdr, recv_orbitcache}
use orbit_cache_public.Packet.Nocache.{NocacheHdr, recv_nocache}
use orbit_cache_public.Packet.Netcache.{NetcacheHdr, recv_netcache}
use orbit_cache_public.Server.Startup.{nocache, netcache}
use orbit_cache_public.Client.Main.{ClientArgs}
use orbit_cache_public.Client.Seq.{SeqHdrs, key_size, seq_get}
use orbit_cache_public.Client.Reply.{
  Stats, par_index, par_counters, in_counters, no_corrections, receive_nocache, receive_netcache,
  receive_orbitcache, check_collision,
}
use orbit_cache_public.Client.Receive.{
  Arrival, Poll, Rx, elapsed_second, report_second, is_known, handle, take_in, rx_loop,
}
use orbit_cache_public.Client.Receive.Laws.{timer_after, timer_of}
use orbit_cache_public.Client.Receive.Loop.{Busy, Received, rx_loop-Received}

-- A reply from the cache has a sequence number whose key the table still has.
abbrev pub Traceable : SeqHdrs → OrbitcacheHdr → Type 0
Traceable seq_hdrs buf =
    (buf.op ≢ op_r_reply)
    ⊎ (buf.cached ≢ 1)
    ⊎ ((key : List ℕ) × (seq_get seq_hdrs (ntohl buf.seq) ≡ some key))

-- The index of `global_par_counter` for the key and the `par_id` of a reply is in the array.
abbrev pub InCounters : ℕ → List ℕ → List ℕ → ℕ → Type 0
InCounters workers org_key value par_id =
    par_index workers (until_nul (org_key ++ value)) par_id < par_counters

in_counters-Returns :
    {A : Type 0} (workers : ℕ) (key : List ℕ) (par_id : ℕ) (rest : Run A)
    → par_index workers key par_id < par_counters
    → Returns rest
    → Returns (in_counters workers key par_id rest)
in_counters-Returns workers key par_id rest low h =
    let room : ltb (par_index workers key par_id) par_counters ≡ true = ground (arith, low) in
    rw room h

check_collision-Returns :
    (workers now : ℕ) (seq_hdrs : SeqHdrs) (buf : OrbitcacheHdr) (st : Stats) (key : List ℕ)
    → seq_get seq_hdrs (ntohl buf.seq) ≡ some key
    → Returns (check_collision workers now seq_hdrs buf st)
unfolding check_collision
check_collision-Returns workers now seq_hdrs buf st key found =
    rw found (Returns-if (strncmp_eq key_size (until_nul key) (until_nul buf.org_key)) _ _ tt tt)

receive_nocache-Returns :
    (workers now now' : ℕ) (buf : NocacheHdr) (st : Stats)
    → InCounters workers buf.org_key buf.value buf.par_id
    → Returns (no_corrections (receive_nocache workers now now' buf st))
unfolding receive_nocache
receive_nocache-Returns workers now now' buf st low =
    Returns-bind _ _
      (Returns-bind _ _
        (Returns-if (buf.op == op_r_reply) _ _ (in_counters-Returns workers _ buf.par_id _ low tt) (
          Returns-if (buf.op == op_w_reply) _ _ (in_counters-Returns workers _ buf.par_id _ low tt)
            tt))
        λ counted. tt)
      λ st'. tt

receive_netcache-Returns :
    (workers now now' : ℕ) (buf : NetcacheHdr) (st : Stats)
    → InCounters workers buf.org_key buf.value buf.par_id
    → Returns (no_corrections (receive_netcache workers now now' buf st))
unfolding receive_netcache
receive_netcache-Returns workers now now' buf st low =
    Returns-bind _ _
      (Returns-bind _ _
        (Returns-if (buf.op == op_r_reply || buf.op == op_w_reply) _ _
          (Returns-if (ltb 0 buf.cached) _ _ tt (in_counters-Returns workers _ buf.par_id _ low tt))
          tt)
        λ counted. tt)
      λ st'. tt

receive_orbitcache-Returns :
    (workers now now' now'' : ℕ) (seq_hdrs : SeqHdrs) (buf : OrbitcacheHdr) (st : Stats)
    → Traceable seq_hdrs buf
    → InCounters workers buf.org_key buf.value buf.par_id
    → Returns (receive_orbitcache workers now now' now'' seq_hdrs buf st)
unfolding receive_orbitcache
receive_orbitcache-Returns workers now now' now'' seq_hdrs buf st traceable low =
    elim (Bool-cases (buf.op == op_r_reply)) [
      | inl read ↦ elim (Bool-cases (buf.cached == 1)) [
        | inl cached ↦
            rw (read, cached)
              (elim traceable [
                | inl other ↦ absurd (ground (arith, other, read))
                | inr (inl other) ↦ absurd (ground (arith, other, cached))
                | inr (inr (key, found)) ↦
                    check_collision-Returns workers now'' seq_hdrs buf _ key found
              ])
        | inr served ↦
            rw (read, served)
              (Returns-if (buf.cached == missed) _ _
                (in_counters-Returns workers _ buf.par_id _ low tt)
                (in_counters-Returns workers _ buf.par_id _ low tt))
      ]
      | inr other ↦ rw other (
          Returns-if (buf.op == op_w_reply) _ _ (in_counters-Returns workers _ buf.par_id _ low tt)
            tt)
    ]

-- A round at which the second has passed is not busy.
not-Busy :
    (polls : List Poll) (last : Poll) (timer : ℕ)
    → elapsed_second last.timer_test (timer_of polls timer) ≡ true
    → ¬ Busy (polls ++ last ∷ []) timer
not-Busy [] last timer quiet busy = ground (arith, quiet, busy.0)
not-Busy (poll ∷ polls) last timer quiet busy =
    not-Busy polls last (timer_after poll timer) quiet busy.1

module _ (workers : ℕ) (args : ClientArgs) where
  -- The `par_id` of the datagram leads to an index in `global_par_counter`, and in the OrbitCache protocol
  -- the datagram is traceable.
  abbrev pub IsHarmless : Arrival → Type 0
  IsHarmless a =
      let first = recv_nocache a.datagram a.over_nocache in
      let second = recv_netcache a.datagram a.over_netcache in
      let third = recv_orbitcache a.datagram a.over_orbitcache in
      Chosen (eq_ℤ args.protocol_id nocache)
        (InCounters workers first.org_key first.value first.par_id)
        (Chosen (eq_ℤ args.protocol_id netcache)
          (InCounters workers second.org_key second.value second.par_id)
          (Traceable a.seq_hdrs third × InCounters workers third.org_key third.value third.par_id))

  abbrev IsHarmlessOption : Option Arrival → Type 0
  IsHarmlessOption none = Unit
  IsHarmlessOption (some a) = IsHarmless a

  abbrev pub IsHarmlessPoll : Poll → Type 0
  IsHarmlessPoll poll = IsHarmlessOption poll.received

  handle-Returns : (a : Arrival) (st : Stats) → IsHarmless a → Returns (handle workers args a st)
  unfolding handle
  handle-Returns a st harmless =
      Returns-split (eq_ℤ args.protocol_id nocache) _ _ harmless
        (receive_nocache-Returns workers a.now a.now' (recv_nocache a.datagram a.over_nocache) st)
        λ other.
          Returns-split (eq_ℤ args.protocol_id netcache) _ _ other
            (receive_netcache-Returns workers a.now a.now'
              (recv_netcache a.datagram a.over_netcache) st)
            λ third.
              receive_orbitcache-Returns workers a.now a.now' a.now'' a.seq_hdrs
                (recv_orbitcache a.datagram a.over_orbitcache) st third.0 third.1

  take_in-Returns :
      (poll : Poll) (received : Option Arrival) (rx : Rx)
      → IsHarmlessOption received
      → Returns (take_in workers args poll received rx)
  unfolding take_in
  take_in-Returns poll none rx harmless = tt
  take_in-Returns poll (some a) rx harmless =
      let (r, e) =
        Returns-ok (handle workers args a rx.stats) (handle-Returns a rx.stats harmless) in
      rw (Returns, e) tt

  rx_loop-Returns :
      (polls : List Poll) (rx : Rx)
      → All IsHarmlessPoll polls
      → Returns (rx_loop workers args polls rx)
  unfolding rx_loop
  rx_loop-Returns [] rx harmless = tt
  rx_loop-Returns (poll ∷ polls) rx harmless =
      let (next, e) =
        Returns-ok (take_in workers args poll poll.received (report_second poll rx))
          (take_in-Returns poll poll.received (report_second poll rx) harmless.0) in
      Returns-if (elapsed_second poll.timer_test rx.timer) _ _ tt (
        Returns-if (is_known workers args) _ _ (rw e (rx_loop-Returns polls next harmless.1))
          (rx_loop-Returns polls (report_second poll rx) harmless.1))

  -- An Rx worker of a known protocol, to which no datagram comes whose `par_id` leads to an index behind
  -- `global_par_counter`, and no reply from the cache for a sequence number whose key is lost, never fails. If at some round more than a second has passed since the last datagram before
  -- it, or since the start of the timer, the loop is left at that round or before: at the first round where
  -- that is so. The lines of the seconds, with the running second, count each datagram of the rounds
  -- before once, and they are numbered one after the other.
  pub rx_loop-ends :
      (polls : List Poll) (last : Poll) (rx : Rx)
      → is_known workers args ≡ true
      → All IsHarmlessPoll (polls ++ last ∷ [])
      → elapsed_second last.timer_test (timer_of polls rx.timer) ≡ true
      → (rx' : Rx) × (rx_loop workers args (polls ++ last ∷ []) rx ≡ ok (true, rx'))
        × Received (polls ++ last ∷ []) rx (true, rx')
  rx_loop-ends polls last rx known harmless quiet =
      let (result, e) =
        Returns-ok (rx_loop workers args (polls ++ last ∷ []) rx)
          (rx_loop-Returns (polls ++ last ∷ []) rx harmless) in
      let received : Received (polls ++ last ∷ []) rx result =
        subst (OnOk (Received (polls ++ last ∷ []) rx)) e
          (rx_loop-Received workers args (polls ++ last ∷ []) rx known) in
      left result.0 result.1 e received
    where
      left :
          (flag : Bool) (rx' : Rx)
          → rx_loop workers args (polls ++ last ∷ []) rx ≡ ok (flag, rx')
          → Received (polls ++ last ∷ []) rx (flag, rx')
          → (rx' : Rx) × (rx_loop workers args (polls ++ last ∷ []) rx ≡ ok (true, rx'))
            × Received (polls ++ last ∷ []) rx (true, rx')
      left true rx' e received = (rx', e, received)
      left false rx' e received = absurd (
          not-Busy polls last rx.timer quiet (
            subst (λ l. Busy l rx.timer)
              (sym (
                received.all
                ∙ ap (λ l. received.before ++ l) received.end
                ∙ append-nil received.before))
              received.busy))
