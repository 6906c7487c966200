-- ===== src/Tests/NocacheServing.antt =====
-- The receive loop of a NoCache worker with a write and a read of the seventh key in its socket.
use orbit_cache_public.Prelude.{◌≡◌, refl, sym, ap, List, [], ◌∷◌, map, arith, replicate}
use orbit_cache_public.Run.{ok}
use orbit_cache_public.Packet.Nocache.{NocacheHdr, IsNocacheHdr, blank_nocache}
use orbit_cache_public.Store.HashTable.{list_tommy}
use orbit_cache_public.Server.Values.{Holds}
use orbit_cache_public.Server.Load.{prepare_data}
use orbit_cache_public.Server.Load.Holds.{initial_values}
use orbit_cache_public.Server.Loop.{Progress, receive_loop, nocache_protocol}
use orbit_cache_public.Server.Loop.Refines.{ArriveAll}
use orbit_cache_public.Client.Request.{Sent}
use orbit_cache_public.Client.Request.Nocache.{request_nocache_lem}
use orbit_cache_public.System.Items.{answers_to, after_all}
use orbit_cache_public.System.NocacheRequests.{
  NocacheItem, delivery, answer_to, after, Comes, nocache_loop-completes,
}
use orbit_cache_public.Tests.Handlers.{room, blank-IsNocacheHdr}
use orbit_cache_public.Tests.Serving.{write_draw, rounds, window, rand}
use orbit_cache_public.Tests.Fixtures.{memory, place, workers, draw}

abbrev items : List NocacheItem
items = record { draw = write_draw; memory = memory } ∷ record { draw = draw; memory = memory } ∷ []

writing-Comes : Comes workers 10 place 9 (record { draw = write_draw; memory = memory })
writing-Comes =
    let sent =
      (request_nocache_lem workers 10 (omega arith) (omega arith) write_draw (omega arith)).3 in
    record {
      known = omega arith;
      now = omega arith;
      host = sym (ap (λ (d : Sent). d.address) sent);
      port = sym (ap (λ (d : Sent). d.port) sent);
      room = room 1024 (omega arith);
    }

reading-Comes : Comes workers 10 place 9 (record { draw = draw; memory = memory })
reading-Comes =
    let sent = (request_nocache_lem workers 10 (omega arith) (omega arith) draw (omega arith)).3 in
    record {
      known = omega arith;
      now = omega arith;
      host = sym (ap (λ (d : Sent). d.address) sent);
      port = sym (ap (λ (d : Sent). d.port) sent);
      room = room 1024 (omega arith);
    }

nocache_loop-completes_example :
    (o : Progress list_tommy NocacheHdr) × (receive_loop
        (nocache_protocol list_tommy)
        rounds
        (map (delivery workers 10) items)
        (record {
          window = window;
          buf = blank_nocache;
          hashlin = prepare_data list_tommy memory place rand 9 (replicate 16 1);
        })
      ≡ ok o)
    × (o.queue ≡ [])
    × Holds list_tommy
        (after_all (answer_to workers 10) (after workers 10) (initial_values place rand 9) items)
        o.station.hashlin
    × ArriveAll
        (nocache_protocol list_tommy)
        IsNocacheHdr
        (answers_to (answer_to workers 10) (after workers 10) (initial_values place rand 9) items)
        o.sent
nocache_loop-completes_example =
    nocache_loop-completes workers 10 (omega arith) (omega arith) place 9 (omega arith) refl
      list_tommy memory rand (replicate 16 1) refl refl items (writing-Comes, (reading-Comes, tt))
      rounds (omega arith) (refl, (refl, tt)) window (omega arith) blank_nocache blank-IsNocacheHdr
