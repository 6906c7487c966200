-- ===== src/Clock.antt =====
-- The clock of header.h (`get_cur_ns`, `get_cur_us`): the readings of `CLOCK_REALTIME` are inputs.
use orbit_cache_public.Prelude.{ℕ, ◌+◌, ◌-◌, ◌*◌, ◌/◌, ◌^◌, ◌≤◌, ◌<◌, ◌≡◌, ap, ltb, u32, u64, arith}
use orbit_cache_public.Client.Reply.{elapsed}
use orbit_cache_public.Client.Receive.{elapsed_second}

-- `struct timespec`
pub record Timespec : Type 0 where
  pub tv_sec : ℕ
  pub tv_nsec : ℕ

unfoldable pub get_cur_ns : Timespec → ℕ
get_cur_ns ts = u64 (ts.tv_sec * 1000 * 1000 * 1000 + ts.tv_nsec)

unfoldable pub get_cur_us : Timespec → ℕ
get_cur_us ts = u32 (ts.tv_sec * 1000 * 1000 + ts.tv_nsec / 1000)

-- The time since the epoch, in whole microseconds and in nanoseconds.
abbrev pub micros : Timespec → ℕ
micros ts = ts.tv_sec * 1000000 + ts.tv_nsec / 1000

abbrev pub nanos : Timespec → ℕ
nanos ts = ts.tv_sec * 1000000000 + ts.tv_nsec

-- The latency of a reply is the time between the two readings in microseconds, for a time of less than
-- 2 ^ 32 of them, though the stamp in the packet wraps around every 2 ^ 32 of them; and the test of a
-- second compares the time between two readings, for times below 2 ^ 64 nanoseconds.
pub elapsed-get_cur_us :
    (sent now : Timespec)
    → micros sent ≤ micros now
    → nanos sent ≤ nanos now
    → micros now - micros sent < 2 ^ 32
    → nanos now < 2 ^ 64
    → (elapsed (get_cur_us now) (get_cur_us sent) ≡ micros now - micros sent)
      × (elapsed_second (get_cur_ns now) (get_cur_ns sent) ≡ ltb (10 ^ 9) (nanos now - nanos sent))
unfolding get_cur_us get_cur_ns
elapsed-get_cur_us sent now before before' short early =
    let whole : u64 (get_cur_ns now + 2 ^ 64 - get_cur_ns sent) ≡ nanos now - nanos sent =
      omega arith in
    (omega arith, ap (ltb (10 ^ 9)) whole)
