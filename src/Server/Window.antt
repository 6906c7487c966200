-- ===== src/Server/Window.antt =====
-- server.c, the limit on the datagrams that a worker takes: the head of each of the three receive
-- loops, with its counter and the start of the current second. The clock is an input.
pub mod Laws
use orbit_cache_public.Prelude.{
  ℕ, ◌+◌, ◌-◌, ◌^◌, List, [], ◌∷◌, Bool, true, false, ltb, leb, u64, if◌then◌else◌,
}

abbrev pub limit_rps : ℕ
limit_rps = 100000

-- `1e9`
abbrev pub second : ℕ
second = 1000000000

pub record Window : Type 0 where
  pub start_time : ℕ
  pub rx_counter : ℕ

-- One round of the loop: the two calls of `get_cur_ns`, and whether `recvfrom` gives more than 0 bytes.
pub record Round : Type 0 where
  pub now : ℕ
  pub later : ℕ
  pub arrived : Bool

-- `get_cur_ns() - start_time > 1e9`
abbrev pub expired : Round → Window → Bool
expired r w = ltb second (u64 (r.now + 2 ^ 64 - w.start_time))

unfoldable pub refresh : Round → Window → Window
refresh r w = if expired r w then record { start_time = r.later; rx_counter = 0 } else w

-- The window after a round, and whether the round takes a datagram.
unfoldable pub turn : Round → Window → Window × Bool
turn r w =
    let w' = refresh r w in
    if leb limit_rps w'.rx_counter
    then (w', false)
    else if r.arrived
    then (record w' { rx_counter = w'.rx_counter + 1 }, true)
    else (w', false)
