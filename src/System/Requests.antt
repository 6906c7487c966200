-- ===== src/System/Requests.antt =====
-- The requests of OrbitCache clients (client.c, `tx_t`) at the worker of server.c that they are sent to.
use orbit_cache_public.Prelude.{
  ℕ, ◌+◌, ◌%◌, ◌^◌, ◌≤◌, ◌<◌, ◌≡◌, refl, ap, List, [], ◌∷◌, map, Bool, true, false, ltb, leb,
  if◌then◌else◌, ◌==◌, Option, none, some, All, length, arith, Bool-cases, inl, inr,
}
use orbit_cache_public.Key.Laws.{key_of}
use orbit_cache_public.Packet.Orbitcache.{OrbitcacheHdr, IsOrbitcacheHdr}
use orbit_cache_public.Routing.{max_workers}
use orbit_cache_public.Run.{ok}
use orbit_cache_public.Store.HashTable.{Tommy}
use orbit_cache_public.Server.Memory.{Memory, letters, Room}
use orbit_cache_public.Server.Values.{Values, updated, Holds}
use orbit_cache_public.Server.Window.{limit_rps, Window, Round}
use orbit_cache_public.Server.Load.{Place, prepare_data}
use orbit_cache_public.Server.Load.Value.{drawn_value}
use orbit_cache_public.Server.Load.Laws.{belongs}
use orbit_cache_public.Server.Load.Holds.{initial_values, prepare_data-Holds}
use orbit_cache_public.Server.Orbitcache.Laws.{read_answer}
use orbit_cache_public.Server.Orbitcache.Write.{write_answer}
use orbit_cache_public.Server.Orbitcache.Spec.{Request, OrbitcacheSpec, read, write}
use orbit_cache_public.Server.Orbitcache.Loop.{orbitcache-Meets}
use orbit_cache_public.Server.Loop.{Delivery, Progress, receive_loop, orbitcache_protocol}
use orbit_cache_public.Server.Loop.Refines.{
  Runs, ArriveAll, Stands, receive_loop-Stands, receive_loop-completes,
}
use orbit_cache_public.Client.Seq.{SeqHdrs}
use orbit_cache_public.Client.Request.{Draw, Sent, write_size, request_orbitcache}
use orbit_cache_public.Client.Request.Laws.{
  read_request, write_request, write_size-le, request_orbitcache-read, request_orbitcache-write,
}
use orbit_cache_public.System.Items.{answers_to, after_all, items-Runs, length-map}
use orbit_cache_public.System.Worker.{Listens, Listens-belongs}

-- A round of a client, and what the server finds on its stack when it serves the request.
pub record Item : Type 0 where
  pub draw : Draw
  pub seq_hdrs : SeqHdrs
  pub seq_global : ℕ
  pub memory : Memory

module _ (workers wratio : ℕ) where
  abbrev pub sent_of : Item → Sent
  sent_of item = (request_orbitcache workers wratio item.draw item.seq_hdrs item.seq_global).0

  abbrev pub delivery : Item → Delivery
  delivery item = record { datagram = (sent_of item).datagram; memory = item.memory }

  abbrev is_read : Item → Bool
  is_read item = leb wratio (item.draw.write_draw % 100)

  abbrev value_of : Option (List ℕ) → List ℕ
  value_of none = []
  value_of (some v) = v

  -- The answer to a request, where the worker holds `values`, and its values after it.
  abbrev pub answer_to : Values → Item → List (OrbitcacheHdr → OrbitcacheHdr)
  answer_to values item =
      if is_read item
      then read_answer (value_of (values item.draw.key_value))
          (read_request workers item.draw item.seq_global)
        ∷ []
      else write_answer (write_size item.draw.size_draw)
          (write_request workers item.draw item.seq_global)
        ∷ []

  abbrev pub after : Values → Item → Values
  after values item =
      if is_read item
      then values
      else updated values item.draw.key_value (letters (write_size item.draw.size_draw))

  -- A request for a number below `size` that is sent to the worker, and that finds room on its stack.
  pub record Comes (place : Place) (size : ℕ) (item : Item) : Type 0 where
    pub known : item.draw.key_value < size
    pub now : item.draw.now_us < 2 ^ 32
    pub listens : Listens place workers (sent_of item)
    pub room : Room (write_size item.draw.size_draw) item.memory

  -- Every number below `size` that leads to the worker has a value.
  abbrev Stocked : Place → ℕ → Values → Type 0
  Stocked place size values =
      (i : ℕ) → i < size → belongs place (key_of i) ≡ true → (v : List ℕ) × (values i ≡ some v)

  module _ (some_worker : 1 ≤ workers) (few : workers ≤ max_workers) (place : Place) (size : ℕ)
      (size_le : size ≤ 2 ^ 64) where
    after-Stocked :
        (values : Values) (item : Item)
        → Stocked place size values
        → Stocked place size (after values item)
    after-Stocked values item stocked i lt mine = elim (Bool-cases (is_read item)) [
      | inl e ↦ rw e (stocked i lt mine)
      | inr e ↦ elim (Bool-cases (item.draw.key_value == i)) [
        | inl same ↦ (letters (write_size item.draw.size_draw), rw (e, same) refl)
        | inr other ↦ let (v, old) = stocked i lt mine in (v, rw (e, other) old)
      ]
    ]

    spec_read :
        (values : Values) (item : Item)
        → Stocked place size values
        → Comes place size item
        → is_read item ≡ true
        → OrbitcacheSpec values (delivery item) (answer_to values item) (after values item)
    spec_read values item stocked comes e =
        let read_draw : wratio ≤ item.draw.write_draw % 100 = ground (arith, e) in
        let (asks, sent) =
          request_orbitcache-read workers wratio some_worker few item.draw item.seq_global comes.now
            item.seq_hdrs read_draw in
        let mine =
          Listens-belongs place workers (key_of item.draw.key_value) (sent_of item) comes.listens
            (ap (λ (d : Sent). d.address) sent) (ap (λ (d : Sent). d.port) sent) in
        let (v, stored) = stocked item.draw.key_value comes.known mine in
        let q : Request item.draw.key_value 0 (read_request workers item.draw item.seq_global)
            (delivery item) =
          record {
            number = omega (arith, comes.known);
            asks = asks;
            small = omega arith;
            datagram = ap (λ (d : Sent). d.datagram) sent;
          } in
        rw (e, stored) (read values (delivery item) _ 0 _ v q (inl refl) stored)

    spec_write :
        (values : Values) (item : Item)
        → Comes place size item
        → is_read item ≡ false
        → OrbitcacheSpec values (delivery item) (answer_to values item) (after values item)
    spec_write values item comes e =
        let write_draw : item.draw.write_draw % 100 < wratio = ground (arith, e) in
        let (asks, sent) =
          request_orbitcache-write workers wratio some_worker few item.draw item.seq_global
            comes.now item.seq_hdrs write_draw in
        let q : Request item.draw.key_value (write_size item.draw.size_draw)
            (write_request workers item.draw item.seq_global) (delivery item) =
          record {
            number = omega (arith, comes.known);
            asks = asks;
            small = omega (arith, write_size-le item.draw.size_draw);
            datagram = ap (λ (d : Sent). d.datagram) sent;
          } in
        rw e (write values (delivery item) _ _ _ q refl comes.room)

    requests-Runs :
        (values : Values) (items : List Item)
        → Stocked place size values
        → All (Comes place size) items
        → Runs OrbitcacheSpec values
            (map delivery items)
            (answers_to answer_to after values items)
            (after_all answer_to after values items)
    requests-Runs =
        items-Runs answer_to after OrbitcacheSpec delivery (Stocked place size) (Comes place size)
          λ values item stocked comes. (
            elim (Bool-cases (is_read item)) [
              | inl e ↦ spec_read values item stocked comes e
              | inr e ↦ spec_write values item comes e
            ],
            after-Stocked values item stocked,
          )

    initial-Stocked : (rand : ℕ → ℕ) → Stocked place size (initial_values place rand size)
    initial-Stocked rand i lt mine = (
      drawn_value (rand i),
      let below : ltb i size ≡ true = ground arith in rw (below, mine) refl,
    )

    -- Let `malloc` not fail, let there be 1 to 16 workers on a server, as many for the clients as for
    -- the worker, and let each request have room on the stack for the array of its value, with a NUL
    -- in the byte behind that array, which the code does not write. A worker that has prepared its
    -- data, and in whose socket are requests of clients for numbers of the data set, sent to its host
    -- and its port, in any order, reads and writes of any keys: whatever the clock says, its loop does
    -- not fail. It has answered a first part of them in the order of the socket, each read with the
    -- value that the writes before it left, of which the last byte is a NUL, and has the others still
    -- in its socket.
    pub prepared_loop-Stands :
        (tommy : Tommy) (memory : Memory) (rand : ℕ → ℕ) (key_str : List ℕ)
        → memory.malloc_ok ≡ true
        → length key_str ≡ 16
        → (items : List Item) → All (Comes place size) items
        → (rs : List Round) (window : Window) (buf : OrbitcacheHdr) → IsOrbitcacheHdr buf
        → let values = initial_values place rand size in
          Stands
            (orbitcache_protocol tommy)
            IsOrbitcacheHdr
            OrbitcacheSpec
            (orbitcache-Meets tommy)
            values
            (map delivery items)
            (answers_to answer_to after values items)
            (after_all answer_to after values items)
            (receive_loop (orbitcache_protocol tommy) rs (map delivery items) (record {
              window = window;
              buf = buf;
              hashlin = prepare_data tommy memory place rand size key_str;
            }))
    prepared_loop-Stands tommy memory rand key_str no_failure key_length items comes rs window buf
          fits =
        receive_loop-Stands (orbitcache_protocol tommy) IsOrbitcacheHdr OrbitcacheSpec
          (orbitcache-Meets tommy)
          (requests-Runs (initial_values place rand size) items (initial-Stocked rand) comes) rs _
          fits
          (prepare_data-Holds tommy memory place rand size key_str no_failure size_le key_length)

    -- Let `malloc` not fail, let there be 1 to 16 workers on a server, as many for the clients as for
    -- the worker, and let each request have room on the stack for the array of its value, with a NUL
    -- in the byte behind that array, which the code does not write. If the window of a worker that has
    -- prepared its data has room for all requests in its socket, of clients for numbers of the data
    -- set and sent to its host and its port, and `recvfrom` finds one in each round, then after as
    -- many rounds the socket is empty, every request is answered, in order, each read with the value
    -- that the writes before it left, of which the last byte is a NUL, and the worker holds the values
    -- that the writes left.
    pub prepared_loop-completes :
        (tommy : Tommy) (memory : Memory) (rand : ℕ → ℕ) (key_str : List ℕ)
        → memory.malloc_ok ≡ true
        → length key_str ≡ 16
        → (items : List Item) → All (Comes place size) items
        → (rs : List Round) → length items ≤ length rs
        → All (λ r. r.arrived ≡ true) rs
        → (window : Window) → window.rx_counter + length items ≤ limit_rps
        → (buf : OrbitcacheHdr) → IsOrbitcacheHdr buf
        → let values = initial_values place rand size in
          (o : Progress tommy OrbitcacheHdr) × (receive_loop
              (orbitcache_protocol tommy)
              rs
              (map delivery items)
              (record {
                window = window;
                buf = buf;
                hashlin = prepare_data tommy memory place rand size key_str;
              })
            ≡ ok o)
          × (o.queue ≡ [])
          × Holds tommy (after_all answer_to after values items) o.station.hashlin
          × ArriveAll
              (orbitcache_protocol tommy)
              IsOrbitcacheHdr
              (answers_to answer_to after values items)
              o.sent
    prepared_loop-completes tommy memory rand key_str no_failure key_length items comes rs many
          arrived window room buf fits =
        receive_loop-completes (orbitcache_protocol tommy) IsOrbitcacheHdr OrbitcacheSpec
          (orbitcache-Meets tommy)
          (requests-Runs (initial_values place rand size) items (initial-Stocked rand) comes) rs _
          fits
          (prepare_data-Holds tommy memory place rand size key_str no_failure size_le key_length)
          (omega (arith, length-map (delivery) items)) arrived
          (omega (arith, length-map (delivery) items))
