-- ===== src/Client/Receive.antt =====
-- client.c, `rx_t`: the log files, and the loop around Reply, with the line of each second and the
-- timer that ends the run. Inputs of a round are the readings of `get_cur_ns` and what `recvfrom` gives.
pub mod Laws
pub mod Loop
pub mod Ends
pub mod Served
pub mod Names
use orbit_cache_public.Prelude.{
  ℕ, ◌+◌, ◌-◌, ◌*◌, ◌^◌, Bool, true, false, List, [], ◌∷◌, ◌++◌, ltb, u64, if◌then◌else◌, Option,
  none, some,
}
use orbit_cache_public.Prelude.Int.{ℤ, pos, eq_ℤ, u64_of}
use orbit_cache_public.Double.{Double}
use orbit_cache_public.Run.{Run, ok, fault}
use orbit_cache_public.Os.{
  Arg, num, Call, printf, fopen, Host, Prog, returns, exits, calls, ◌>>=◌, ◌>>◌, does, require,
}
use orbit_cache_public.Packet.Orbitcache.{OrbitcacheHdr, recv_orbitcache}
use orbit_cache_public.Packet.Netcache.{NetcacheHdr, recv_netcache}
use orbit_cache_public.Packet.Nocache.{NocacheHdr, recv_nocache}
use orbit_cache_public.Preload.Main.{num_hotkey}
use orbit_cache_public.Routing.{num_srv}
use orbit_cache_public.Server.Startup.{nocache, netcache, orbitcache, pin_to_cpu}
use orbit_cache_public.Client.Main.{ClientArgs}
use orbit_cache_public.Client.Seq.{SeqHdrs}
use orbit_cache_public.Client.Request.{Sent}
use orbit_cache_public.Client.Reply.{
  Stats, no_corrections, receive_nocache, receive_netcache, receive_orbitcache,
}

-- What the names of the three files are printed from.
unfoldable pub log_fields : ℕ → ClientArgs → ℕ → List Arg
log_fields workers args i =
    num (u64_of args.protocol_id)
    ∷ num (u64_of args.server_id)
    ∷ num i
    ∷ num num_srv
    ∷ num workers
    ∷ num (u64_of args.dist)
    ∷ num args.time_exp
    ∷ num args.target_qps
    ∷ num num_hotkey
    ∷ []

-- The head of the thread with the number `i`; the files are those with the numbers 0 to 2.
unfoldable pub start_rx : Host → ℕ → ClientArgs → ℕ → Prog (Unit {0})
start_rx host workers args i = do
  pin_to_cpu host (i * 2 + 1)
  does (
      printf "Rx Worker %d is running with Socket %d, CPU %d\n"
        (num i ∷ num args.sock ∷ num (i * 2 + 1) ∷ []))
  does (fopen "./log-%lu-%lu-%d-%d-%d-%lu-%lu-%lu-%d.txt" (log_fields workers args i))
  require (host.opened 0) []
  does (fopen "./log-%lu-%lu-%d-%d-%d-%lu-%lu-%lu-%d-cache.txt" (log_fields workers args i))
  require (host.opened 1) []
  does (fopen "./log-%lu-%lu-%d-%d-%d-%lu-%lu-%lu-%d-server.txt" (log_fields workers args i))
  require (host.opened 2) []

-- A datagram, the contents of the buffers that it is received over, the readings of `get_cur_us`, and
-- the table of sequence numbers at that time.
pub record Arrival : Type 0 where
  pub datagram : List ℕ
  pub over_nocache : NocacheHdr
  pub over_netcache : NetcacheHdr
  pub over_orbitcache : OrbitcacheHdr
  pub now : ℕ
  pub now' : ℕ
  pub now'' : ℕ
  pub seq_hdrs : SeqHdrs

-- One round: the readings for the two tests, the one that restarts the second, what is received, and
-- the one that restarts the timer.
pub record Poll : Type 0 where
  pub report_test : ℕ
  pub restart : ℕ
  pub timer_test : ℕ
  pub received : Option Arrival
  pub later : ℕ

pub record Rx : Type 0 where
  pub stats : Stats
  pub start_time : ℕ
  pub timer : ℕ
  pub rx_time : ℕ
  pub printed : List (ℕ × ℕ)
  pub corrections : List Sent

abbrev pub second : ℕ
second = 10 ^ 9

-- `get_cur_ns() - since > 1e9`, in `uint64_t`
abbrev pub elapsed_second : ℕ → ℕ → Bool
elapsed_second now since = ltb second (u64 (now + 2 ^ 64 - since))

-- `printf("%d %u\n", rx_time, rx_counter)`, once a second.
unfoldable pub report_second : Poll → Rx → Rx
report_second poll rx =
    if elapsed_second poll.report_test rx.start_time
    then record rx {
      printed = rx.printed ++ (rx.rx_time, rx.stats.rx_counter) ∷ [];
      stats = record rx.stats { rx_counter = 0 };
      rx_time = rx.rx_time + 1;
      start_time = poll.restart;
    }
    else rx

module _ (workers : ℕ) (args : ClientArgs) where
  unfoldable pub handle : Arrival → Stats → Run (Stats × List Sent)
  handle a st =
      if eq_ℤ args.protocol_id nocache
      then no_corrections
          (receive_nocache workers a.now a.now' (recv_nocache a.datagram a.over_nocache) st)
      else if eq_ℤ args.protocol_id netcache
      then no_corrections
          (receive_netcache workers a.now a.now' (recv_netcache a.datagram a.over_netcache) st)
      else receive_orbitcache workers a.now a.now' a.now'' a.seq_hdrs
          (recv_orbitcache a.datagram a.over_orbitcache) st

  -- A protocol with another number receives nothing.
  abbrev pub is_known : Bool
  is_known =
      if eq_ℤ args.protocol_id nocache
      then true
      else if eq_ℤ args.protocol_id netcache
      then true
      else eq_ℤ args.protocol_id orbitcache

  unfoldable pub take_in : Poll → Option Arrival → Rx → Run Rx
  take_in poll none rx = ok rx
  take_in poll (some a) rx = elim (handle a rx.stats) [
    | ok (st, sent) ↦
        ok (record rx { stats = st; corrections = rx.corrections ++ sent; timer = poll.later })
    | fault e ↦ fault e
  ]

  -- `while(1)`: the flag says whether the loop was left.
  unfoldable pub rx_loop : List Poll → Rx → Run (Bool × Rx)
  rx_loop [] rx = ok (false, rx)
  rx_loop (poll ∷ polls) rx =
      let rx' = report_second poll rx in
      if elapsed_second poll.timer_test rx.timer
      then ok (true, rx')
      else if is_known
      then elim (take_in poll poll.received rx') [
        | ok next ↦ rx_loop polls next
        | fault e ↦ fault e
      ]
      else rx_loop polls rx'

-- The line of the log at the end, in seconds.
unfoldable pub rx_time_total : (dbl : Double) → ℕ → ℕ → dbl.Carrier
rx_time_total dbl start now =
    dbl.minus (dbl.over (dbl.of_ℕ (u64 (now + 2 ^ 64 - start))) (dbl.of_ℕ (10 ^ 9))) (dbl.of_ℕ 1)
