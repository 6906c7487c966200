-- ===== src/Tests/Serving.antt =====
-- The receive loop of a worker with a write and a read of the seventh key in its socket.
use orbit_cache_public.Prelude.{
  ℕ, ◌*◌, ◌≡◌, refl, sym, ap, List, [], ◌∷◌, ◌++◌, map, All, true, arith, replicate,
}
use orbit_cache_public.Run.{ok}
use orbit_cache_public.Packet.Orbitcache.{OrbitcacheHdr, IsOrbitcacheHdr, blank_orbitcache}
use orbit_cache_public.Store.HashTable.{list_tommy}
use orbit_cache_public.Server.Values.{Holds}
use orbit_cache_public.Server.Window.{Window, Round}
use orbit_cache_public.Server.Load.{prepare_data}
use orbit_cache_public.Server.Load.Holds.{initial_values}
use orbit_cache_public.Server.Loop.{Delivery, Station, Progress, receive_loop, orbitcache_protocol}
use orbit_cache_public.Server.Loop.Order.{visible, with_rest, handle_all, receive_loop-handle_all}
use orbit_cache_public.Server.Loop.Refines.{ArriveAll, Stands}
use orbit_cache_public.Server.Orbitcache.Spec.{OrbitcacheSpec}
use orbit_cache_public.Server.Orbitcache.Loop.{orbitcache-Meets}
use orbit_cache_public.Client.Request.{Draw, Sent}
use orbit_cache_public.Client.Request.Laws.{request_orbitcache-read, request_orbitcache-write}
use orbit_cache_public.System.Requests.{
  Item, delivery, answer_to, after, Comes, prepared_loop-Stands, prepared_loop-completes,
}
use orbit_cache_public.System.Items.{answers_to, after_all}
use orbit_cache_public.Tests.Handlers.{room}
use orbit_cache_public.Tests.Fixtures.{memory, place, workers, draw, table, blank_fits}

abbrev pub write_draw : Draw
write_draw = record draw { write_draw = 5 }

abbrev reading : Item
reading = record { draw = draw; seq_hdrs = table; seq_global = 6; memory = memory }

abbrev writing : Item
writing = record { draw = write_draw; seq_hdrs = table; seq_global = 5; memory = memory }

reading-Comes : Comes workers 10 place 9 reading
reading-Comes =
    let sent =
      (request_orbitcache-read workers 10 (omega arith) (omega arith) draw 6 (omega arith) table
        (omega arith)).1 in
    record {
      known = omega arith;
      now = omega arith;
      listens = record {
        host = sym (ap (λ (d : Sent). d.address) sent);
        port = sym (ap (λ (d : Sent). d.port) sent);
        same_workers = refl;
      };
      room = room 1024 (omega arith);
    }

writing-Comes : Comes workers 10 place 9 writing
writing-Comes =
    let sent =
      (request_orbitcache-write workers 10 (omega arith) (omega arith) write_draw 5 (omega arith)
        table (omega arith)).1 in
    record {
      known = omega arith;
      now = omega arith;
      listens = record {
        host = sym (ap (λ (d : Sent). d.address) sent);
        port = sym (ap (λ (d : Sent). d.port) sent);
        same_workers = refl;
      };
      room = room 1024 (omega arith);
    }

abbrev pub items : List Item
items = writing ∷ reading ∷ []

pub items-Come : All (Comes workers 10 place 9) items
items-Come = (writing-Comes, (reading-Comes, tt))

abbrev pub rounds : List Round
rounds =
    record { now = 5; later = 6; arrived = true }
    ∷ record { now = 7; later = 8; arrived = true }
    ∷ []

abbrev pub window : Window
window = record { start_time = 0; rx_counter = 99998 }

abbrev pub rand : ℕ → ℕ
rand i = i * 7

abbrev pub station : Station list_tommy OrbitcacheHdr
station = record {
  window = window;
  buf = blank_orbitcache;
  hashlin = prepare_data list_tommy memory place rand 9 (replicate 16 1);
}

prepared_loop-Stands_example :
    Stands
      (orbitcache_protocol list_tommy)
      IsOrbitcacheHdr
      OrbitcacheSpec
      (orbitcache-Meets list_tommy)
      (initial_values place rand 9)
      (map (delivery workers 10) items)
      (answers_to (answer_to workers 10) (after workers 10) (initial_values place rand 9) items)
      (after_all (answer_to workers 10) (after workers 10) (initial_values place rand 9) items)
      (receive_loop
        (orbitcache_protocol list_tommy)
        rounds
        (map (delivery workers 10) items)
        station)
prepared_loop-Stands_example =
    prepared_loop-Stands workers 10 (omega arith) (omega arith) place 9 (omega arith) list_tommy
      memory rand (replicate 16 1) refl refl items items-Come rounds window blank_orbitcache
      blank_fits

prepared_loop-completes_example :
    (o : Progress list_tommy OrbitcacheHdr) × (receive_loop
        (orbitcache_protocol list_tommy)
        rounds
        (map (delivery workers 10) items)
        station
      ≡ ok o)
    × (o.queue ≡ [])
    × Holds list_tommy
        (after_all (answer_to workers 10) (after workers 10) (initial_values place rand 9) items)
        o.station.hashlin
    × ArriveAll
        (orbitcache_protocol list_tommy)
        IsOrbitcacheHdr
        (answers_to (answer_to workers 10) (after workers 10) (initial_values place rand 9) items)
        o.sent
prepared_loop-completes_example =
    prepared_loop-completes workers 10 (omega arith) (omega arith) place 9 (omega arith) list_tommy
      memory rand (replicate 16 1) refl refl items items-Come rounds (omega arith)
      (refl, (refl, tt)) window (omega arith) blank_orbitcache blank_fits

receive_loop-handle_all_example :
    (done : List Delivery) × (rest : List Delivery) × (map (delivery workers 10) items
      ≡ done ++ rest)
    × (visible (orbitcache_protocol list_tommy) (
          receive_loop
            (orbitcache_protocol list_tommy)
            rounds
            (map (delivery workers 10) items)
            station)
        ≡ with_rest
            (orbitcache_protocol list_tommy)
            rest
            (handle_all (orbitcache_protocol list_tommy) done station.buf station.hashlin))
receive_loop-handle_all_example =
    receive_loop-handle_all (orbitcache_protocol list_tommy) rounds
      (map (delivery workers 10) items) station
