-- ===== src/Client/Report.antt =====
-- client.c, the end of `main`: the totals of the threads, the rates, and the partitions by load;
-- `compare` and `struct counter_t` are header.h's.
pub mod Laws
use Prim.Native.String.{String}
use orbit_cache_public.Prelude.{
  ℕ, zero, suc, ◌+◌, ◌-◌, ◌*◌, ◌^◌, Bool, List, [], ◌∷◌, ◌++◌, map, sum_to, u64, if◌then◌else◌,
}
use orbit_cache_public.Prelude.Int.{ℤ, pos, negsuc, ltb_ℤ, u64_of}
use orbit_cache_public.Double.{Double}
use orbit_cache_public.Routing.{num_srv}
use orbit_cache_public.Client.Main.{Options, num_cli_workers}
use orbit_cache_public.Client.Reply.{Stats}

pub record Totals : Type 0 where
  pub pkt_counter : ℕ
  pub pkt_counter_cache : ℕ
  pub pkt_counter_miss : ℕ
  pub pkt_counter_server : ℕ

-- The loop over the threads' counters.
unfoldable pub totals : ℕ → (ℕ → Stats) → Totals
totals n stats = record {
  pkt_counter = sum_to n (λ i. (stats i).pkt_counter);
  pkt_counter_cache = sum_to n (λ i. (stats i).pkt_counter_cache);
  pkt_counter_miss = sum_to n (λ i. (stats i).pkt_counter_miss);
  pkt_counter_server = sum_to n (λ i. (stats i).pkt_counter_server);
}

-- `f 0`, ..., `f (n - 1)`
abbrev pub tabulate {ℓ} : {A : Type ℓ} → ℕ → (ℕ → A) → List A
tabulate zero f = []
tabulate (suc n) f = tabulate n f ++ f n ∷ []

module _ (dbl : Double) where
  pub record Counter : Type 0 where
    pub index : ℕ
    pub throughput : dbl.Carrier

  -- The larger throughput first.
  unfoldable pub compare : Counter → Counter → ℤ
  compare a b =
      if dbl.lt a.throughput b.throughput
      then pos 1
      else if dbl.lt b.throughput a.throughput
      then negsuc 0
      else pos 0

  -- `qsort` with `compare`, where equal items keep their order.
  unfoldable pub insert : Counter → List Counter → List Counter
  insert x [] = x ∷ []
  insert x (y ∷ ys) =
      let rest = insert x ys in if ltb_ℤ (pos 0) (compare x y) then y ∷ rest else x ∷ y ∷ ys

  unfoldable pub qsort : List Counter → List Counter
  qsort [] = []
  qsort (x ∷ xs) = insert x (qsort xs)

  -- A counter for each partition.
  unfoldable pub counters : ℕ → (ℕ → ℕ) → dbl.Carrier → List Counter
  counters n par_counter tot_time =
      tabulate n
        (λ i. record { index = i; throughput = dbl.over (dbl.of_ℕ (par_counter i)) tot_time })

  unfoldable pub ranking : ℕ → (ℕ → ℕ) → dbl.Carrier → List Counter
  ranking n par_counter tot_time = qsort (counters n par_counter tot_time)

  -- What is printed: a number, a double, and a double cut to an `int`.
  pub data Value : Type 0 where
    count : ℕ → Value
    double : dbl.Carrier → Value
    cut : dbl.Carrier → Value

  -- `((get_cur_ns() - elapsed_time) / 1e9) - 1`
  unfoldable pub total_time : ℕ → ℕ → dbl.Carrier
  total_time start now =
      dbl.minus (dbl.over (dbl.of_ℕ (u64 (now + 2 ^ 64 - start))) (dbl.of_ℕ (10 ^ 9))) (dbl.of_ℕ 1)

  unfoldable pub rate : ℕ → dbl.Carrier → dbl.Carrier
  rate counter tot_time = dbl.over (dbl.of_ℕ counter) tot_time

  -- The share of the requests, `TARGET_QPS * TIME_EXP` in `uint64_t`, that had no reply.
  unfoldable pub lossrate : Options → Totals → dbl.Carrier
  lossrate o t =
      dbl.minus (dbl.of_ℕ 1)
        (dbl.over (dbl.of_ℕ t.pkt_counter) (dbl.of_ℕ (u64 (o.target_qps * u64_of o.time_exp))))

  unfoldable pub missrate : Totals → dbl.Carrier
  missrate t =
      dbl.over (dbl.of_ℕ t.pkt_counter_miss) (dbl.of_ℕ (t.pkt_counter_cache + t.pkt_counter_miss))

  abbrev percent : dbl.Carrier → dbl.Carrier
  percent x = dbl.times x (dbl.of_ℕ 100)

  -- The lines, with what they print: the sentences, and then the bare numbers.
  unfoldable pub sentences : Options → Totals → (ℕ → ℕ) → dbl.Carrier → List (String × List Value)
  sentences o t par_counter tot_time =
      ("Total time: %f seconds \n", double tot_time ∷ [])
      ∷ ("Total received pkts: %d \n", count t.pkt_counter ∷ [])
      ∷ ("Packet loss rate: %f \n", double (percent (lossrate o t)) ∷ [])
      ∷ ("Rx Throughput (Total): %d RPS \n", cut (rate t.pkt_counter tot_time) ∷ [])
      ∷ ("Rx Throughput (Cache): %d RPS \n", cut (rate t.pkt_counter_cache tot_time) ∷ [])
      ∷ ("Rx Throughput (Server): %d RPS \n", cut (rate t.pkt_counter_server tot_time) ∷ [])
      ∷ tabulate (o.workers * num_srv) (λ i. (
        "Rx Throughput (Partition%d): %d RPS \n",
        count i ∷ cut (rate (par_counter i) tot_time) ∷ [],
      ))

  unfoldable pub numbers : Options → Totals → (ℕ → ℕ) → dbl.Carrier → List (String × List Value)
  numbers o t par_counter tot_time =
      ("%f\n", double tot_time ∷ [])
      ∷ ("%d\n", count t.pkt_counter ∷ [])
      ∷ ("%d\n", count t.pkt_counter_cache ∷ [])
      ∷ ("%d\n", count t.pkt_counter_miss ∷ [])
      ∷ ("%d\n", count t.pkt_counter_server ∷ [])
      ∷ ("%f\n", double (percent (missrate t)) ∷ [])
      ∷ ("%f\n", double (percent (lossrate o t)) ∷ [])
      ∷ ("%d\n", cut (rate t.pkt_counter tot_time) ∷ [])
      ∷ ("%d\n", cut (rate t.pkt_counter_cache tot_time) ∷ [])
      ∷ ("%d\n", cut (rate t.pkt_counter_server tot_time) ∷ [])
      ∷ map (λ c. ("%d\n", cut c.throughput ∷ []))
          (ranking (o.workers * num_srv) par_counter tot_time)

  unfoldable pub report : Options → (ℕ → Stats) → (ℕ → ℕ) → ℕ → ℕ → List (String × List Value)
  report o stats par_counter start now =
      let t = totals num_cli_workers stats in
      let tot_time = total_time start now in
      sentences o t par_counter tot_time ++ numbers o t par_counter tot_time
