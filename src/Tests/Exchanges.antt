-- ===== src/Tests/Exchanges.antt =====
-- A write and a read of the seventh key, the worker's answers, and the Rx worker that takes them in.
use orbit_cache_public.Prelude.{◌≡◌, refl, List, [], ◌∷◌, map, length, none, arith, replicate}
use orbit_cache_public.Run.{ok}
use orbit_cache_public.Packet.Orbitcache.{OrbitcacheHdr, blank_orbitcache}
use orbit_cache_public.Store.HashTable.{list_tommy}
use orbit_cache_public.Server.Loop.{Progress, receive_loop, orbitcache_protocol}
use orbit_cache_public.Client.Receive.{rx_loop}
use orbit_cache_public.Client.Receive.Served.{Reading, received_in, LoopCounts}
use orbit_cache_public.System.Requests.{delivery}
use orbit_cache_public.System.Exchange.{all_datagrams, exchange_lem}
use orbit_cache_public.Tests.Fixtures.{memory, place, workers, blank_fits}
use orbit_cache_public.Tests.Loops.{args, rx, arrival}
use orbit_cache_public.Tests.Serving.{items, items-Come, rounds, window, rand, station}

abbrev readings : List Reading
readings =
    record {
      poll = record { report_test = 6; restart = 6; timer_test = 7; received = none; later = 8 };
      arrival = arrival;
    }
    ∷ record {
      poll = record { report_test = 9; restart = 9; timer_test = 10; received = none; later = 11 };
      arrival = arrival;
    }
    ∷ []

exchange_lem_example :
    (o : Progress list_tommy OrbitcacheHdr) × (receive_loop
        (orbitcache_protocol list_tommy)
        rounds
        (map (delivery workers 10) items)
        station
      ≡ ok o)
    × (o.queue ≡ [])
    × LoopCounts
        (length items)
        rx
        (rx_loop workers args (received_in readings (all_datagrams o.sent)) rx)
exchange_lem_example =
    exchange_lem workers 10 args refl (omega arith) (omega arith) place 9 (omega arith) list_tommy
      memory rand (replicate 16 1) refl refl items items-Come rounds (omega arith)
      (refl, (refl, tt)) window (omega arith) blank_orbitcache blank_fits readings refl rx
      (refl, blank_fits, (refl, blank_fits, tt))
