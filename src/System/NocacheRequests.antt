-- ===== src/System/NocacheRequests.antt =====
-- The requests of NoCache clients (client.c, `tx_t`) at the worker of server.c that they are sent to.
use orbit_cache_public.Prelude.{
  ℕ, ◌+◌, ◌^◌, ◌≤◌, ◌<◌, ◌≡◌, refl, ap, ◌∙◌, List, [], ◌∷◌, map, true, ltb, ◌==◌, if◌then◌else◌,
  Option, none, some, All, length, arith, Bool-cases, inl, inr,
}
use orbit_cache_public.Key.Laws.{key_of}
use orbit_cache_public.Packet.{max_value_size, small_value, large_value}
use orbit_cache_public.Packet.Nocache.{NocacheHdr, IsNocacheHdr}
use orbit_cache_public.Routing.{nocache_base_port, max_workers}
use orbit_cache_public.Run.{ok}
use orbit_cache_public.Store.HashTable.{Tommy}
use orbit_cache_public.Server.Memory.{Memory, letters, Room}
use orbit_cache_public.Server.Memory.Laws.{length-letters}
use orbit_cache_public.Server.Values.{Values, updated, Holds}
use orbit_cache_public.Server.Window.{limit_rps, Window, Round}
use orbit_cache_public.Server.Load.{Place, prepare_data}
use orbit_cache_public.Server.Load.Value.{drawn_value}
use orbit_cache_public.Server.Load.Laws.{belongs}
use orbit_cache_public.Server.Load.Holds.{initial_values, prepare_data-Holds}
use orbit_cache_public.Server.Nocache.Spec.{
  Request, read_answer, write_answer, NocacheSpec, read, write,
}
use orbit_cache_public.Server.Nocache.Loop.{nocache-Meets}
use orbit_cache_public.Server.Loop.{Delivery, Progress, receive_loop, nocache_protocol}
use orbit_cache_public.Server.Loop.Refines.{Runs, ArriveAll, receive_loop-completes}
use orbit_cache_public.Client.Request.{Draw, Sent, write_size, request_nocache}
use orbit_cache_public.Client.Request.Laws.{write_size-le}
use orbit_cache_public.Client.Request.Nocache.{is_read, header, value_size, request_nocache_lem}
use orbit_cache_public.System.Items.{answers_to, after_all, items-Runs, length-map}
use orbit_cache_public.System.Worker.{belongs_iff}

-- A round of a client, and what the server finds on its stack when it serves the request.
pub record NocacheItem : Type 0 where
  pub draw : Draw
  pub memory : Memory

length-drawn_value-lt : (draw : ℕ) → length (drawn_value draw) < max_value_size
unfolding drawn_value
length-drawn_value-lt draw = ground (arith, length-letters small_value, length-letters large_value)

module _ (workers wratio : ℕ) where
  abbrev pub delivery : NocacheItem → Delivery
  delivery item = record {
    datagram = (request_nocache workers wratio item.draw).datagram;
    memory = item.memory;
  }

  abbrev value_of : Option (List ℕ) → List ℕ
  value_of none = []
  value_of (some v) = v

  -- The answer to a request, where the worker holds `values`, and its values after it.
  abbrev pub answer_to : Values → NocacheItem → List (NocacheHdr → NocacheHdr)
  answer_to values item =
      if is_read workers wratio item.draw
      then read_answer (value_of (values item.draw.key_value)) (header workers wratio item.draw)
        ∷ []
      else write_answer (header workers wratio item.draw) ∷ []

  abbrev pub after : Values → NocacheItem → Values
  after values item =
      if is_read workers wratio item.draw
      then values
      else updated values item.draw.key_value (letters (write_size item.draw.size_draw))

  -- A request for a number below `size` that is sent to the worker, and that finds room on its stack.
  pub record Comes (place : Place) (size : ℕ) (item : NocacheItem) : Type 0 where
    pub known : item.draw.key_value < size
    pub now : item.draw.now_us < 2 ^ 32
    pub host : place.ipaddr ≡ (request_nocache workers wratio item.draw).address
    pub port :
        nocache_base_port + place.partition_id ≡ (request_nocache workers wratio item.draw).port
    pub room : Room (write_size item.draw.size_draw) item.memory

  -- Every number below `size` that leads to the worker has a value, with room for its NUL in a packet.
  abbrev Stocked : Place → ℕ → Values → Type 0
  Stocked place size values =
      (i : ℕ)
      → i < size
      → belongs place (key_of i) ≡ true
      → (v : List ℕ) × (values i ≡ some v) × (length v < max_value_size)

  module _ (some_worker : 1 ≤ workers) (few : workers ≤ max_workers) (place : Place) (size : ℕ)
      (size_le : size ≤ 2 ^ 64) (same_workers : place.num_srv_workers ≡ workers) where
    after-Stocked :
        (values : Values) (item : NocacheItem)
        → Stocked place size values
        → Stocked place size (after values item)
    after-Stocked values item stocked i lt mine =
        elim (Bool-cases (is_read workers wratio item.draw)) [
          | inl e ↦ rw e (stocked i lt mine)
          | inr e ↦ elim (Bool-cases (item.draw.key_value == i)) [
            | inl same ↦ (
              letters (write_size item.draw.size_draw),
              rw (e, same) refl,
              omega (
                arith,
                length-letters (write_size item.draw.size_draw),
                write_size-le item.draw.size_draw,
              ),
            )
            | inr other ↦ let (v, old, small) = stocked i lt mine in (v, rw (e, other) old, small)
          ]
        ]

    Comes-belongs :
        (item : NocacheItem)
        → Comes place size item
        → belongs place (key_of item.draw.key_value) ≡ true
    Comes-belongs item comes =
        let sent = (request_nocache_lem workers wratio some_worker few item.draw comes.now).3 in
        (belongs_iff place (key_of item.draw.key_value)).1 (
          comes.host ∙ ap (λ (d : Sent). d.address) sent,
          rw same_workers (omega (arith, comes.port, ap (λ (d : Sent). d.port) sent)),
        )

    request :
        (item : NocacheItem)
        → Comes place size item
        → Request item.draw.key_value
            (value_size workers wratio item.draw)
            (header workers wratio item.draw)
            (delivery item)
    request item comes =
        let (fits, spells, small, sent) =
          request_nocache_lem workers wratio some_worker few item.draw comes.now in
        record {
          number = omega (arith, comes.known);
          fits = fits;
          spells = spells;
          small = omega (arith, small);
          datagram = ap (λ (d : Sent). d.datagram) sent;
        }

    one_request :
        (values : Values) (item : NocacheItem)
        → Stocked place size values
        → Comes place size item
        → NocacheSpec values (delivery item) (answer_to values item) (after values item)
    one_request values item stocked comes = elim (Bool-cases (is_read workers wratio item.draw)) [
      | inl e ↦
          let (v, stored, small) =
            stocked item.draw.key_value comes.known (Comes-belongs item comes) in
          rw (e, stored)
            (read values (delivery item) _ _ _ v (request item comes) (rw e refl) stored small)
      | inr e ↦
          let q = rw e at (request item comes) in
          rw e (write values (delivery item) _ _ _ q refl comes.room)
    ]

    requests-Runs :
        (values : Values) (items : List NocacheItem)
        → Stocked place size values
        → All (Comes place size) items
        → Runs NocacheSpec values
            (map delivery items)
            (answers_to answer_to after values items)
            (after_all answer_to after values items)
    requests-Runs =
        items-Runs answer_to after NocacheSpec delivery (Stocked place size) (Comes place size)
          λ values item stocked comes.
            (one_request values item stocked comes, after-Stocked values item stocked)

    initial-Stocked : (rand : ℕ → ℕ) → Stocked place size (initial_values place rand size)
    initial-Stocked rand i lt mine = (
      drawn_value (rand i),
      let below : ltb i size ≡ true = ground arith in rw (below, mine) refl,
      length-drawn_value-lt (rand i),
    )

    -- Let `malloc` not fail, let there be 1 to 16 workers on a server, as many for the clients as for
    -- the worker, and let each request have room on the stack for the array of its value, with a NUL
    -- in the byte behind that array, which the code does not write. A NoCache worker that has prepared
    -- its data, and in whose socket are requests of clients for numbers of the data set, sent to its
    -- host and its port, in any order: if its window has room for all of them, and `recvfrom` finds
    -- one in each round, then after as many rounds the socket is empty, every request is answered, in
    -- order, each read with the whole value that the writes before it left, and the worker holds the
    -- values that the writes left.
    pub nocache_loop-completes :
        (tommy : Tommy) (memory : Memory) (rand : ℕ → ℕ) (key_str : List ℕ)
        → memory.malloc_ok ≡ true
        → length key_str ≡ 16
        → (items : List NocacheItem) → All (Comes place size) items
        → (rs : List Round) → length items ≤ length rs
        → All (λ r. r.arrived ≡ true) rs
        → (window : Window) → window.rx_counter + length items ≤ limit_rps
        → (buf : NocacheHdr) → IsNocacheHdr buf
        → let values = initial_values place rand size in
          (o : Progress tommy NocacheHdr) × (receive_loop
              (nocache_protocol tommy)
              rs
              (map delivery items)
              (record {
                window = window;
                buf = buf;
                hashlin = prepare_data tommy memory place rand size key_str;
              })
            ≡ ok o)
          × (o.queue ≡ [])
          × Holds tommy (after_all answer_to after values items) o.station.hashlin
          × ArriveAll
              (nocache_protocol tommy)
              IsNocacheHdr
              (answers_to answer_to after values items)
              o.sent
    nocache_loop-completes tommy memory rand key_str no_failure key_length items comes rs many
          arrived window room buf fits =
        receive_loop-completes (nocache_protocol tommy) IsNocacheHdr NocacheSpec
          (nocache-Meets tommy)
          (requests-Runs (initial_values place rand size) items (initial-Stocked rand) comes) rs _
          fits
          (prepare_data-Holds tommy memory place rand size key_str no_failure size_le key_length)
          (omega (arith, length-map delivery items)) arrived
          (omega (arith, length-map delivery items))
