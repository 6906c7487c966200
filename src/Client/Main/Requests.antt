-- ===== src/Client/Main/Requests.antt =====
-- The number of requests of a run.
use orbit_cache_public.Prelude.{ℕ, ◌-◌, ◌*◌, ◌^◌, ◌≤◌, ◌<◌, ◌≡◌, u64, arith}
use orbit_cache_public.Prelude.Int.{pos, u64_of, i32_of}
use orbit_cache_public.Client.Main.{Options, requests_of, client_args}

int_fits : (n : ℕ) → n < 2 ^ 31 → u64_of (i32_of (u64 n)) ≡ n
int_fits n h = ground arith

int_overflows : (n : ℕ) → 2 ^ 31 ≤ n → n < 2 ^ 32 → 2 ^ 64 - 2 ^ 31 ≤ u64_of (i32_of (u64 n))
int_overflows n h k = ground arith

-- A product below 2 ^ 31 is the number of requests that a thread is given; from 2 ^ 31 on and below
-- 2 ^ 32 the thread is given a number of at least 2 ^ 64 - 2 ^ 31.
pub client_args-num_requests :
    (o : Options) (i sock seconds : ℕ)
    → o.time_exp ≡ pos seconds
    → o.num_requests ≡ requests_of o.target_qps o.time_exp
    → seconds < 2 ^ 31
    → (o.target_qps * seconds < 2 ^ 31
        → (client_args o i sock).num_requests ≡ o.target_qps * seconds)
      × (2 ^ 31 ≤ o.target_qps * seconds
          → o.target_qps * seconds < 2 ^ 32
          → 2 ^ 64 - 2 ^ 31 ≤ (client_args o i sock).num_requests)
unfolding client_args requests_of
client_args-num_requests o i sock seconds time product small =
    let same : u64_of (pos seconds) ≡ seconds = omega arith in
    rw (product, time, same)
      (int_fits (o.target_qps * seconds), int_overflows (o.target_qps * seconds))
