-- ===== src/Server/Startup/Laws.antt =====
-- What `main` and the head of a worker come to.
use orbit_cache_public.Prelude.{ℕ, ◌+◌, ◌≤◌, ◌≡◌, ◌⊎◌, List, [], ◌∷◌, ◌++◌}
use orbit_cache_public.Prelude.Int.{ℤ, pos}
use orbit_cache_public.Os.{worker_t, Call, create, join, Host}
use orbit_cache_public.Os.Laws.{for_calls}
use orbit_cache_public.Routing.{max_workers}
use orbit_cache_public.Server.Startup.{nocache, netcache, orbitcache, last_char, ServerArgs}

-- The id that the last digit of the host's address gives.
abbrev pub IsServer : Host → ℤ → Type 0
IsServer host id =
    (s : ℕ) × (id ≡ pos s) × (1 ≤ s) × (s ≤ 255) × (last_char host.address ≡ b'4' + s)

pub record IsConfigured (host : Host) (args : ServerArgs) : Type 0 where
  pub protocol :
      (args.protocol_id ≡ nocache) ⊎ (args.protocol_id ≡ netcache) ⊎ (args.protocol_id ≡ orbitcache)
  pub some_worker : 1 ≤ args.workers
  pub few : args.workers ≤ max_workers
  pub known_server : IsServer host args.server_id

abbrev IsCount : ℕ → Type 0
IsCount w = (1 ≤ w) × (w ≤ max_workers)

abbrev IsKnown : ℤ → Type 0
IsKnown p = (p ≡ nocache) ⊎ (p ≡ netcache) ⊎ (p ≡ orbitcache)

pub record InRange (id : ℤ) : Type 0 where
  pub number : ℕ
  pub same : id ≡ pos number
  pub low : 1 ≤ number
  pub high : number ≤ 255

-- The calls that create the workers, and the join of the first.
abbrev pub worker_calls : ServerArgs → List Call
worker_calls args = for_calls args.workers 0 (λ i. create worker_t i ∷ []) ++ join worker_t 0 ∷ []
