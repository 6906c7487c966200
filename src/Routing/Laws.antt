-- ===== src/Routing/Laws.antt =====
-- The destination is one of the servers in use, and the partition one of its workers.
use orbit_cache_public.Prelude.{ℕ, ◌+◌, ◌≤◌, ◌<◌, arith, List, u64}
use orbit_cache_public.Hash.{hash64_str}
use orbit_cache_public.Routing.{num_srv, max_workers, dst_addr, partition_of}
use native.Mathlib.Nat.{mod-lt}

pub dst_addr-lt : (key : List ℕ) → dst_addr key < num_srv
unfolding dst_addr
dst_addr-lt key = omega arith

pub partition_of-lt :
    (workers : ℕ) (key : List ℕ)
    → 1 ≤ workers
    → workers ≤ max_workers
    → partition_of workers key < workers
unfolding partition_of
partition_of-lt workers key h k = omega (arith, mod-lt (u64 (hash64_str key + 0x12345678)) h)
