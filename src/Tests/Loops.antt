-- ===== src/Tests/Loops.antt =====
-- The loops of the two threads of a client, on short runs.
use orbit_cache_public.Prelude.{
  ℕ, ◌-◌, ◌^◌, ◌<◌, ◌≡◌, ◌≢◌, ◌+◌, ◌++◌, inl, inr, true, ap, refl, ltb, List, [], ◌∷◌, none, some,
  max, arith,
}
use orbit_cache_public.Prelude.Int.{pos}
use orbit_cache_public.Run.{ok}
use orbit_cache_public.Packet.Orbitcache.{
  OrbitcacheHdr, blank_orbitcache, orbitcache_head, send_orbitcache, recv_orbitcache,
  recv_orbitcache-send_orbitcache,
}
use orbit_cache_public.Packet.{op_r_reply}
use orbit_cache_public.Packet.Netcache.{blank_netcache}
use orbit_cache_public.Packet.Nocache.{blank_nocache}
use orbit_cache_public.Client.Main.{ClientArgs}
use orbit_cache_public.Client.Seq.{initial_seq_hdrs}
use orbit_cache_public.Client.Reply.{initial_stats, elapsed}
use orbit_cache_public.Client.Reply.Laws.{par_index-lt}
use orbit_cache_public.Client.Send.{requests_per_worker, Turn, Tx, tx_loop}
use orbit_cache_public.Client.Send.Laws.{Passes, Finished, tx_loop_lem}
use orbit_cache_public.Client.Receive.{Arrival, Poll, Rx, elapsed_second, rx_loop}
use orbit_cache_public.Clock.{get_cur_ns, get_cur_us, micros, nanos, elapsed-get_cur_us}
use orbit_cache_public.Client.Receive.Loop.{Received}
use orbit_cache_public.Client.Receive.Ends.{rx_loop-ends}
use orbit_cache_public.Tests.Fixtures.{blank_fits}

abbrev pub args : ClientArgs
args = record {
  sock = 3;
  src_port = 3000;
  target_qps = 1000;
  num_requests = 2;
  wratio = pos 5;
  protocol_id = pos 3;
  server_id = pos 5;
  dist = pos 3;
  time_exp = 10;
}

abbrev turn : ℕ → Turn
turn gap = record {
  gap = gap;
  draw = record { key_value = 7; write_draw = 50; size_draw = 3; now_us = 9 };
}

abbrev tx : Tx
tx = record { temp_time = 0; counter = 0; seq_hdrs = initial_seq_hdrs; seq_global = 0; sent = [] }

-- A clock that counts its readings.
ticking : Passes 11 (λ n. n) 10
ticking temp_time j le = (temp_time, omega arith, omega arith)

tx_loop_lem_example :
    Finished 8 args tx
      (turn 4 ∷ turn 2 ∷ turn 3 ∷ [])
      (max 1 (requests_per_worker args))
      (tx_loop 8 args 11 (λ n. n) (turn 4 ∷ turn 2 ∷ turn 3 ∷ []) 0 tx)
unfolding requests_per_worker
tx_loop_lem_example =
    tx_loop_lem 8 args 11 10 (λ n. n) (turn 4 ∷ turn 2 ∷ turn 3 ∷ []) 0 tx (inr (inr refl)) ticking
      (omega arith) (omega arith) refl (omega arith)

abbrev pub rx : Rx
rx = record {
  stats = initial_stats;
  start_time = 5;
  timer = 5;
  rx_time = 1;
  printed = [];
  corrections = [];
}

abbrev pub arrival : Arrival
arrival = record {
  datagram = send_orbitcache (orbitcache_head + 0) blank_orbitcache;
  over_nocache = blank_nocache;
  over_netcache = blank_netcache;
  over_orbitcache = blank_orbitcache;
  now = 0;
  now' = 0;
  now'' = 0;
  seq_hdrs = initial_seq_hdrs;
}

-- A datagram and nothing, and then nothing for a second.
abbrev polls : List Poll
polls =
    record { report_test = 6; restart = 6; timer_test = 7; received = some arrival; later = 8 }
    ∷ record { report_test = 9; restart = 9; timer_test = 10; received = none; later = 11 }
    ∷ []

abbrev quiet : Poll
quiet = record {
  report_test = 1000000012;
  restart = 1000000013;
  timer_test = 1000000014;
  received = none;
  later = 1000000015;
}

nothing_asked : (recv_orbitcache arrival.datagram arrival.over_orbitcache).op ≢ op_r_reply
nothing_asked e =
    let received =
      recv_orbitcache-send_orbitcache blank_orbitcache blank_orbitcache 0 blank_fits blank_fits
        (omega arith) in
    absurd (omega (arith, e, ap (λ (h : OrbitcacheHdr). h.op) received))

arrived_par_id : (recv_orbitcache arrival.datagram arrival.over_orbitcache).par_id < 8
arrived_par_id =
    let received =
      recv_orbitcache-send_orbitcache blank_orbitcache blank_orbitcache 0 blank_fits blank_fits
        (omega arith) in
    omega (arith, ap (λ (h : OrbitcacheHdr). h.par_id) received)

rx_loop-ends_example :
    (rx' : Rx) × (rx_loop 8 args (polls ++ quiet ∷ []) rx ≡ ok (true, rx'))
    × Received (polls ++ quiet ∷ []) rx (true, rx')
rx_loop-ends_example =
    rx_loop-ends 8 args polls quiet rx refl
      ((inl nothing_asked, par_index-lt 8 _ _ (omega arith) arrived_par_id), (tt, (tt, tt))) refl

-- Readings before and after the stamp in microseconds wraps around.
elapsed-get_cur_us_example :
    (elapsed
        (get_cur_us (record { tv_sec = 4294967297; tv_nsec = 250000 }))
        (get_cur_us (record { tv_sec = 4294967296; tv_nsec = 999750000 }))
      ≡ micros (record { tv_sec = 4294967297; tv_nsec = 250000 })
        - micros (record { tv_sec = 4294967296; tv_nsec = 999750000 }))
    × (elapsed_second
          (get_cur_ns (record { tv_sec = 4294967297; tv_nsec = 250000 }))
          (get_cur_ns (record { tv_sec = 4294967296; tv_nsec = 999750000 }))
        ≡ ltb (10 ^ 9) (
            nanos (record { tv_sec = 4294967297; tv_nsec = 250000 })
            - nanos (record { tv_sec = 4294967296; tv_nsec = 999750000 })))
elapsed-get_cur_us_example =
    elapsed-get_cur_us (record { tv_sec = 4294967296; tv_nsec = 999750000 })
      (record { tv_sec = 4294967297; tv_nsec = 250000 }) (omega arith) (omega arith) (omega arith)
      (omega arith)
