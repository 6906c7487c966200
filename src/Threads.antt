-- ===== src/Threads.antt =====
-- How the threads get their numbers (`worker_t` of server.c, `tx_t` and `rx_t` of client.c): each takes
-- the lock (`lock_tid`, `lock_txid`, `lock_rxid` of header.h), takes the number that the shared
-- counter (`t_id`, `tx_id`, `rx_id`) holds, puts the next one there, and gives the lock back. The
-- steps of different threads come in any order.
pub mod Laws
pub mod Safety
use orbit_cache_public.Prelude.{
  ℕ, ◌+◌, ◌<◌, ◌≡◌, ◌==◌, Bool, true, false, if◌then◌else◌, Option, none, some,
}

-- `loaded` and `stored` are the halves of `t_id++`.
pub data Phase : Type 0 where
  idle locked : Phase
  loaded stored running : ℕ → Phase

pub record Shared : Type 0 where
  pub t_id : ℕ
  pub holder : Option ℕ
  pub phase : ℕ → Phase

abbrev pub update : (ℕ → Phase) → ℕ → Phase → ℕ → Phase
update phase k p j = if j == k then p else phase j

abbrev pub start : Shared
start = record { t_id = 0; holder = none; phase = λ k. idle }

-- A step of one of the `n` threads.
pub data Step (n : ℕ) : Shared → Shared → Type 0 where
  acquire :
      {s : Shared} (k : ℕ)
      → k < n
      → s.phase k ≡ idle
      → s.holder ≡ none
      → Step n s (record s { holder = some k; phase = update s.phase k locked })
  load :
      {s : Shared} (k : ℕ)
      → k < n
      → s.phase k ≡ locked
      → Step n s (record s { phase = update s.phase k (loaded s.t_id) })
  store :
      {s : Shared} (k i : ℕ)
      → k < n
      → s.phase k ≡ loaded i
      → Step n s (record s { t_id = i + 1; phase = update s.phase k (stored i) })
  release :
      {s : Shared} (k i : ℕ)
      → k < n
      → s.phase k ≡ stored i
      → Step n s (record s { holder = none; phase = update s.phase k (running i) })

pub data Reach (n : ℕ) : Shared → Type 0 where
  begin : Reach n start
  next : {s t : Shared} → Reach n s → Step n s t → Reach n t

-- The number that a thread has taken.
abbrev pub id_of : Phase → Option ℕ
id_of idle = none
id_of locked = none
id_of (loaded i) = none
id_of (stored i) = some i
id_of (running i) = some i

abbrev pub inside : Phase → Bool
inside idle = false
inside locked = true
inside (loaded i) = true
inside (stored i) = true
inside (running i) = false
