-- ===== src/Client/Receive/Laws.antt =====
-- What one round of an Rx worker's loop counts.
use orbit_cache_public.Prelude.{
  ℕ, ◌+◌, ◌≡◌, refl, Bool-cases, inl, inr, List, [], ◌∷◌, ◌++◌, length, length-append, Option, none,
  some, Option-cases, ◌==◌, ◌||◌, ltb, Bool, arith,
}
use orbit_cache_public.Prelude.Int.{eq_ℤ}
use orbit_cache_public.Text.{until_nul, strncmp_eq}
use orbit_cache_public.Run.{Run, ok, fault, OnOk, OnOk-if, ◌>>=◌}
use orbit_cache_public.Packet.{op_r_reply, op_w_reply, missed}
use orbit_cache_public.Packet.Endian.{ntohl}
use orbit_cache_public.Packet.Orbitcache.{OrbitcacheHdr}
use orbit_cache_public.Packet.Netcache.{NetcacheHdr}
use orbit_cache_public.Packet.Nocache.{NocacheHdr}
use orbit_cache_public.Server.Startup.{nocache, netcache}
use orbit_cache_public.Client.Main.{ClientArgs}
use orbit_cache_public.Client.Seq.{SeqHdrs, seq_get, key_size}
use orbit_cache_public.Client.Request.{Sent}
use orbit_cache_public.Client.Reply.{
  Stats, no_corrections, receive_nocache, receive_netcache, receive_orbitcache, check_collision,
  par_index, par_counters,
}
use orbit_cache_public.Client.Receive.{Arrival, Poll, Rx, report_second, handle, take_in}

abbrev Counts : ℕ → Run (Stats × List Sent) → Type 0
Counts n = OnOk (λ r. r.0.rx_counter ≡ n)

-- What a datagram is counted as is counted before.
one_more_received :
    (m : Run Stats) (n : ℕ)
    → OnOk (λ st. st.rx_counter ≡ n) m
    → Counts (n + 1) (
        (m >>= λ counted. ok (record counted { rx_counter = counted.rx_counter + 1 })) >>= λ st'.
        ok (st', []))
one_more_received (ok st) n h = omega (arith, h)
one_more_received (fault e) n h = tt

nocache-Counts :
    (workers now now' : ℕ) (buf : NocacheHdr) (st : Stats)
    → Counts (st.rx_counter + 1) (no_corrections (receive_nocache workers now now' buf st))
unfolding receive_nocache
nocache-Counts workers now now' buf st = one_more_received _ st.rx_counter (
    OnOk-if _ (buf.op == op_r_reply) _ _ (OnOk-if _ room _ _ refl tt)
      (OnOk-if _ (buf.op == op_w_reply) _ _ (OnOk-if _ room _ _ refl tt) refl))
  where
    room : Bool
    room = ltb (par_index workers (until_nul (buf.org_key ++ buf.value)) buf.par_id) par_counters

netcache-Counts :
    (workers now now' : ℕ) (buf : NetcacheHdr) (st : Stats)
    → Counts (st.rx_counter + 1) (no_corrections (receive_netcache workers now now' buf st))
unfolding receive_netcache
netcache-Counts workers now now' buf st = one_more_received _ st.rx_counter (
    OnOk-if _ (buf.op == op_r_reply || buf.op == op_w_reply) _ _
      (OnOk-if _ (ltb 0 buf.cached) _ _ refl (
        OnOk-if _
          (ltb (par_index workers (until_nul (buf.org_key ++ buf.value)) buf.par_id) par_counters) _
          _ refl tt))
      refl)

check_collision-Counts :
    (workers now : ℕ) (seq_hdrs : SeqHdrs) (buf : OrbitcacheHdr) (st : Stats)
    → Counts st.rx_counter (check_collision workers now seq_hdrs buf st)
unfolding check_collision
check_collision-Counts workers now seq_hdrs buf st =
    elim (Option-cases (seq_get seq_hdrs (ntohl buf.seq))) [
      | inl lost ↦ rw lost tt
      | inr (key, found) ↦
          elim (Bool-cases (strncmp_eq key_size (until_nul key) (until_nul buf.org_key))) [
            | inl same ↦ rw (found, same) refl
            | inr other ↦ rw (found, other) refl
          ]
    ]

orbitcache-Counts :
    (workers now now' now'' : ℕ) (seq_hdrs : SeqHdrs) (buf : OrbitcacheHdr) (st : Stats)
    → Counts (st.rx_counter + 1) (receive_orbitcache workers now now' now'' seq_hdrs buf st)
unfolding receive_orbitcache
orbitcache-Counts workers now now' now'' seq_hdrs buf st =
    OnOk-if _ (buf.op == op_r_reply) _ _
      (OnOk-if _ (buf.cached == 1) _ _ (check_collision-Counts workers now'' seq_hdrs buf _) (
        OnOk-if _ (buf.cached == missed) _ _ (OnOk-if _ room _ _ refl tt)
          (OnOk-if _ room _ _ refl tt)))
      (OnOk-if _ (buf.op == op_w_reply) _ _ (OnOk-if _ room _ _ refl tt) refl)
  where
    room : Bool
    room = ltb (par_index workers (until_nul (buf.org_key ++ buf.value)) buf.par_id) par_counters

pub handle-Counts :
    (workers : ℕ) (args : ClientArgs) (a : Arrival) (st : Stats)
    → Counts (st.rx_counter + 1) (handle workers args a st)
unfolding handle
handle-Counts workers args a st =
    OnOk-if _ (eq_ℤ args.protocol_id nocache) _ _ (nocache-Counts workers a.now a.now' _ st) (
      OnOk-if _ (eq_ℤ args.protocol_id netcache) _ _ (netcache-Counts workers a.now a.now' _ st)
        (orbitcache-Counts workers a.now a.now' a.now'' a.seq_hdrs _ st))

-- All datagrams so far: those of the printed seconds, and of the running one.
abbrev pub sum_printed : List (ℕ × ℕ) → ℕ
sum_printed [] = 0
sum_printed ((time, count) ∷ rest) = count + sum_printed rest

abbrev pub total_received : Rx → ℕ
total_received rx = sum_printed rx.printed + rx.stats.rx_counter

abbrev pub arrivals : List Poll → ℕ
arrivals [] = 0
arrivals (poll ∷ polls) = (elim poll.received [ none ↦ 0 | some a ↦ 1 ]) + arrivals polls

-- The reading that the timer was last set to.
abbrev pub timer_after : Poll → ℕ → ℕ
timer_after poll timer = elim poll.received [ none ↦ timer | some a ↦ poll.later ]

abbrev pub timer_of : List Poll → ℕ → ℕ
timer_of [] timer = timer
timer_of (poll ∷ polls) timer = timer_of polls (timer_after poll timer)

sum_printed-append :
    (l : List (ℕ × ℕ)) (x : ℕ × ℕ) → sum_printed (l ++ x ∷ []) ≡ sum_printed l + x.1
sum_printed-append [] x = omega arith
sum_printed-append (y ∷ l) x = omega (arith, sum_printed-append l x)

-- The line of a second changes neither the total nor the timer.
pub report_second-total :
    (poll : Poll) (rx : Rx)
    → (total_received (report_second poll rx) ≡ total_received rx)
      × ((report_second poll rx).timer ≡ rx.timer)
      × (length (report_second poll rx).printed + rx.rx_time
          ≡ length rx.printed + (report_second poll rx).rx_time)
unfolding report_second
report_second-total poll rx = ground (
  arith,
  sum_printed-append rx.printed (rx.rx_time, rx.stats.rx_counter),
  length-append rx.printed ((rx.rx_time, rx.stats.rx_counter) ∷ []),
)

-- What a round that is no fault changes.
abbrev pub TookIn : Poll → Rx → Rx → Type 0
TookIn poll rx next =
    (total_received next ≡ total_received rx + (elim poll.received [ none ↦ 0 | some a ↦ 1 ]))
    × (next.timer ≡ timer_after poll rx.timer)
    × (next.printed ≡ rx.printed)
    × (next.rx_time ≡ rx.rx_time)

pub take_in-lem :
    (workers : ℕ) (args : ClientArgs) (poll : Poll) (received : Option Arrival) (rx : Rx)
    → OnOk
        (λ next.
          (total_received next ≡ total_received rx + (elim received [ none ↦ 0 | some a ↦ 1 ]))
          × (next.timer ≡ (elim received [ none ↦ rx.timer | some a ↦ poll.later ]))
          × (next.printed ≡ rx.printed)
          × (next.rx_time ≡ rx.rx_time))
        (take_in workers args poll received rx)
unfolding take_in
take_in-lem workers args poll none rx = (omega arith, refl, refl, refl)
take_in-lem workers args poll (some a) rx =
    taken (handle workers args a rx.stats) (handle-Counts workers args a rx.stats)
  where
    taken :
        (r : Run (Stats × List Sent))
        → Counts (rx.stats.rx_counter + 1) r
        → OnOk
            (λ next.
              (total_received next ≡ total_received rx + 1)
              × (next.timer ≡ poll.later)
              × (next.printed ≡ rx.printed)
              × (next.rx_time ≡ rx.rx_time))
            (elim r [
              | ok (st, sent) ↦ ok (record rx {
                stats = st;
                corrections = rx.corrections ++ sent;
                timer = poll.later;
              })
              | fault e ↦ fault e
            ])
    taken (ok r) h = (omega (arith, h), refl, refl, refl)
    taken (fault e) h = tt
