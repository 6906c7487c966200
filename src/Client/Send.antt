-- ===== src/Client/Send.antt =====
-- client.c, `tx_t`: the worker's share of the load, the wait for the time of each request, and the
-- loop. Inputs are the readings of `get_cur_ns`, by their number, the gaps that
-- `gsl_ran_exponential` draws, and what Request's draws are.
pub mod Laws
use orbit_cache_public.Prelude.{
  ℕ, zero, suc, ◌+◌, ◌-◌, ◌*◌, ◌/◌, ◌^◌, Bool, List, [], ◌∷◌, ◌++◌, ltb, leb, u64, if◌then◌else◌,
  Option, none, some,
}
use orbit_cache_public.Prelude.Int.{ℤ, pos, pos_part, ltb_ℤ, eq_ℤ}
use orbit_cache_public.Double.{Double}
use orbit_cache_public.Os.{
  num, Call, printf, Host, Prog, returns, exits, calls, ◌>>=◌, ◌>>◌, does, require,
}
use orbit_cache_public.Server.Startup.{nocache, netcache, orbitcache, pin_to_cpu}
use orbit_cache_public.Workload.{get_key, get_uniform_key}
use orbit_cache_public.Client.Main.{num_cli_workers, ClientArgs}
use orbit_cache_public.Client.Seq.{SeqHdrs}
use orbit_cache_public.Client.Request.{
  Draw, Sent, request_orbitcache, request_netcache, request_nocache,
}

-- The head of the thread with the number `i`: a pair of threads has two cores.
unfoldable pub start_tx : Host → ClientArgs → ℕ → Prog (Unit {0})
start_tx host args i = do
  pin_to_cpu host (i * 2)
  does (
      printf "Tx Worker %d is running with Socket %d, CPU %d\n"
        (num i ∷ num args.sock ∷ num (i * 2) ∷ []))

unfoldable pub requests_per_worker : ClientArgs → ℕ
requests_per_worker args = args.num_requests / num_cli_workers

-- `mu`, the mean of the gaps in nanoseconds.
unfoldable pub mean_gap : (dbl : Double) → ClientArgs → dbl.Carrier
mean_gap dbl args =
    let target_qps = args.target_qps / num_cli_workers in
    dbl.over (dbl.of_ℕ 1) (dbl.times (dbl.of_ℕ target_qps) (dbl.frac 1 (10 ^ 9)))

-- The key of a request: skewed, for a draw in the table, or uniform.
unfoldable pub draw_key : ℤ → (ℕ → Bool) → ℕ → ℕ
draw_key dist below draw = if ltb_ℤ (pos 0) dist then get_key below else get_uniform_key draw

-- `while (get_cur_ns() < temp_time);` from the reading `j` on: the number of the next reading.
-- The fuel is the number of readings that may be taken.
unfoldable pub wait : ℕ → (ℕ → ℕ) → ℕ → ℕ → Option ℕ
wait zero clock temp_time j = none
wait (suc fuel) clock temp_time j =
    let rest = wait fuel clock temp_time (j + 1) in
    if ltb (clock j) temp_time then rest else some (j + 1)

pub record Turn : Type 0 where
  pub gap : ℕ
  pub draw : Draw

-- What the loop keeps, and what it has sent, with the reading that each wait ended at.
pub record Tx : Type 0 where
  pub temp_time : ℕ
  pub counter : ℕ
  pub seq_hdrs : SeqHdrs
  pub seq_global : ℕ
  pub sent : List (ℕ × Option Sent)

module _ (workers : ℕ) (args : ClientArgs) where
  -- The request of the protocol; a protocol with another number sends nothing.
  unfoldable pub next_request : Draw → SeqHdrs → ℕ → Option Sent × SeqHdrs × ℕ
  next_request draw seq_hdrs seq_global =
      let wratio = pos_part args.wratio in
      if eq_ℤ args.protocol_id nocache
      then (some (request_nocache workers wratio draw), seq_hdrs, seq_global)
      else if eq_ℤ args.protocol_id netcache
      then (some (request_netcache workers wratio draw), seq_hdrs, seq_global)
      else if eq_ℤ args.protocol_id orbitcache
      then (let (sent, hdrs, next) = request_orbitcache workers wratio draw seq_hdrs seq_global in
          (some sent, hdrs, next))
      else (none, seq_hdrs, seq_global)

  unfoldable pub tx_round : ℕ → Turn → Tx → Tx
  tx_round now turn st =
      let (sent, hdrs, next) = next_request turn.draw st.seq_hdrs st.seq_global in
      record {
        temp_time = u64 (st.temp_time + turn.gap);
        counter = st.counter + 1;
        seq_hdrs = hdrs;
        seq_global = next;
        sent = st.sent ++ (now, sent) ∷ [];
      }

  -- `while(1)`, which ends after the round that brings the counter to the number of requests.
  unfoldable pub tx_loop : ℕ → (ℕ → ℕ) → List Turn → ℕ → Tx → Option Tx
  tx_loop fuel clock [] j st = none
  tx_loop fuel clock (turn ∷ turns) j st =
      elim (wait fuel clock (u64 (st.temp_time + turn.gap)) j) [
        | none ↦ none
        | some next ↦
            let st' = tx_round (clock (next - 1)) turn st in
            let rest = tx_loop fuel clock turns next st' in
            if leb (requests_per_worker args) st'.counter then some st' else rest
      ]

-- The line at the end: the requests, and their rate over the run.
unfoldable pub tx_throughput : (dbl : Double) → ℕ → ℕ → ℕ → dbl.Carrier
tx_throughput dbl start now counter =
    dbl.over (dbl.of_ℕ counter)
      (dbl.over (dbl.of_ℕ (u64 (now + 2 ^ 64 - start))) (dbl.of_ℕ (10 ^ 9)))
