-- ===== src/Tests/Interleavings.antt =====
-- One run of two threads that take their numbers: the second thread comes first.
use orbit_cache_public.Prelude.{ℕ, zero, suc, ◌+◌, ◌<◌, ◌≡◌, refl, ◌⊎◌, none, arith}
use orbit_cache_public.Threads.{
  locked, loaded, stored, running, Shared, update, start, Step, acquire, load, store, release,
  Reach, begin, next,
}
use orbit_cache_public.Threads.Safety.{IsRunning, thread_ids_unique, threads-progress}

-- The state after the four steps of the thread `k`, which takes the number `i`.
abbrev after : ℕ → ℕ → Shared → Shared
after k i s = record {
  t_id = i + 1;
  holder = none;
  phase =
      update (update (update (update s.phase k locked) k (loaded i)) k (stored i)) k (running i);
}

abbrev one : Shared
one = after 1 0 start

abbrev both : Shared
both = after 0 1 one

one_runs : Reach 2 one
one_runs =
    next
      (next (next (next begin (acquire 1 (omega arith) refl refl)) (load 1 (omega arith) refl))
        (store 1 0 (omega arith) refl))
      (release 1 0 (omega arith) refl)

both_run : Reach 2 both
both_run =
    next
      (next (next (next one_runs (acquire 0 (omega arith) refl refl)) (load 0 (omega arith) refl))
        (store 0 1 (omega arith) refl))
      (release 0 1 (omega arith) refl)

thread_ids_unique_example : (◌≡◌ {A = ℕ} 0 0) × (1 < 2)
thread_ids_unique_example = thread_ids_unique both_run 0 0 1 refl refl

all_run : (k : ℕ) → k < 2 → IsRunning (both.phase k)
all_run zero lt = (1, refl)
all_run (suc k) lt = (0, ground arith)

threads-progress_example :
    ((k : ℕ) → k < 2 → IsRunning (one.phase k)) ⊎ ((t : Shared) × Step 2 one t)
threads-progress_example = threads-progress one_runs
