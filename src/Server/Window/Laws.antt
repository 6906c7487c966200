-- ===== src/Server/Window/Laws.antt =====
-- How many datagrams a worker takes.
use orbit_cache_public.Prelude.{ℕ, ◌+◌, ◌*◌, ◌≤◌, ◌≡◌, List, [], ◌∷◌, if◌then◌else◌, arith}
use orbit_cache_public.Server.Window.{limit_rps, Window, Round, expired, refresh, turn}

-- The datagrams taken in a run of rounds, and the windows that end in it.
abbrev pub taken : List Round → Window → ℕ
taken [] w = 0
taken (r ∷ rs) w = (if (turn r w).1 then 1 else 0) + taken rs (turn r w).0

abbrev pub windows : List Round → Window → ℕ
windows [] w = 0
windows (r ∷ rs) w = (if expired r w then 1 else 0) + windows rs (turn r w).0

-- What a round does to the count.
turn_counts :
    (r : Round) (w : Window)
    → w.rx_counter ≤ limit_rps
    → ((turn r w).0.rx_counter ≤ limit_rps)
      × ((turn r w).0.rx_counter
          ≡ (if (turn r w).1 then 1 else 0) + (if expired r w then 0 else w.rx_counter))
unfolding turn refresh
turn_counts r w h = ground arith

-- A worker takes at most `LIMIT_RPS` datagrams in each of its windows of more than a second: those
-- of the whole run, with what the counter held at the start, are at most that many for each window
-- that ends in it and one more.
pub taken_lem :
    (rs : List Round) (w : Window)
    → w.rx_counter ≤ limit_rps
    → w.rx_counter + taken rs w ≤ limit_rps * (windows rs w + 1)
taken_lem [] w h = omega arith
taken_lem (r ∷ rs) w h =
    let rest = taken_lem rs (turn r w).0 (turn_counts r w h).0 in
    ground (arith, turn_counts r w h, rest)
