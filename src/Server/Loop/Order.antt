-- ===== src/Server/Loop/Order.antt =====
-- The receive limit and the clock decide how far a worker gets with the datagrams in its socket, and
-- nothing else.
use orbit_cache_public.Prelude.{
  ℕ, ◌+◌, ◌≤◌, ◌<◌, ◌≡◌, refl, sym, ap, ◌∙◌, List, [], ◌∷◌, ◌++◌, true, false, length, All, arith,
  Bool-cases, inl, inr, ltb, if◌then◌else◌,
}
use orbit_cache_public.Run.{Fault, Run, ok, fault, ◌>>=◌, Run-cases, bind_assoc}
use orbit_cache_public.Store.HashTable.{Tommy}
use orbit_cache_public.Store.{Store}
use orbit_cache_public.Server.Memory.{Served}
use orbit_cache_public.Server.Window.{limit_rps, Window, Round, refresh, turn}
use orbit_cache_public.Server.Loop.{
  Delivery, Protocol, Station, Progress, bytes_of, handle, receive, receive_loop,
}

module _ {tommy : Tommy} {Hdr : Type 0} (p : Protocol tommy Hdr) where
  -- What a worker has after it has handled some datagrams.
  pub record Handled : Type 0 where
    pub buf : Hdr
    pub hashlin : Store tommy
    pub sent : List (List (List ℕ))

  -- The handlers of the datagrams one after the other, with no clock and no limit.
  unfoldable pub handle_all : List Delivery → Hdr → Store tommy → Run Handled
  handle_all [] buf hashlin = ok (record { buf = buf; hashlin = hashlin; sent = [] })
  handle_all (d ∷ ds) buf hashlin = do
    served ← handle p d buf hashlin
    others ← handle_all ds served.buf served.hashlin
    ok (record others { sent = served.sent ∷ others.sent })

  -- What a loop does that can be seen: all but its window, and the datagrams still in the socket.
  abbrev pub visible : Run (Progress tommy Hdr) → Run (Handled × List Delivery)
  visible m = m >>= λ o.
      ok (record { buf = o.station.buf; hashlin = o.station.hashlin; sent = o.sent }, o.queue)

  abbrev pub with_rest : List Delivery → Run Handled → Run (Handled × List Delivery)
  with_rest rest m = m >>= λ h. ok (h, rest)

  -- The datagrams of a first round before those of the others.
  abbrev prepend :
      List (List (List ℕ)) → Run (Handled × List Delivery) → Run (Handled × List Delivery)
  prepend sent m = m >>= λ o. ok (record o.0 { sent = sent ++ o.0.sent }, o.1)

  -- The loop handles `done` and leaves `rest`.
  abbrev Does :
      List Delivery → List Delivery → Run (Progress tommy Hdr) → Hdr → Store tommy → Type 0
  Does done rest m buf hashlin = visible m ≡ with_rest rest (handle_all done buf hashlin)

  abbrev Prefix : List Delivery → Run (Progress tommy Hdr) → Hdr → Store tommy → Type 0
  Prefix queue m buf hashlin =
      (done : List Delivery) × (rest : List Delivery) × (queue ≡ done ++ rest)
      × Does done rest m buf hashlin

  -- A round after which the others go on from `first`.
  visible-next :
      (first : Progress tommy Hdr) (rs : List Round)
      → visible (
          receive_loop p rs first.queue first.station >>= λ others.
          ok (record others { sent = first.sent ++ others.sent }))
        ≡ prepend first.sent (visible (receive_loop p rs first.queue first.station))
  visible-next first rs =
      bind_assoc (receive_loop p rs first.queue first.station) _ _
      ∙ sym (bind_assoc (receive_loop p rs first.queue first.station) _ _)

  handle_all-next :
      (sent : List (List ℕ)) (rest : List Delivery) (m : Run Handled)
      → prepend (sent ∷ []) (with_rest rest m)
        ≡ with_rest rest (m >>= λ others. ok (record others { sent = sent ∷ others.sent }))
  handle_all-next sent rest (ok h) = refl
  handle_all-next sent rest (fault e) = refl

  prepend-nil : (m : Run (Handled × List Delivery)) → prepend [] m ≡ m
  prepend-nil (ok o) = refl
  prepend-nil (fault e) = refl

  abbrev after_idle : List Delivery → Station tommy Hdr → Window → Progress tommy Hdr
  after_idle queue st w = record { station = record st { window = w }; queue = queue; sent = [] }

  -- A round that takes nothing.
  idle :
      (r : Round) (rs : List Round) (queue done rest : List Delivery) (st : Station tommy Hdr)
      (w : Window)
      → receive p r queue st ≡ ok (after_idle queue st w)
      → Does done rest (receive_loop p rs queue (record st { window = w })) st.buf st.hashlin
      → Does done rest (receive_loop p (r ∷ rs) queue st) st.buf st.hashlin
  unfolding receive_loop
  idle r rs queue done rest st w e same =
      rw e (visible-next (after_idle queue st w) rs ∙ prepend-nil _ ∙ same)

  module _ (r : Round) (rs : List Round) (d : Delivery) (queue : List Delivery)
      (st : Station tommy Hdr) where
    abbrev next : Served tommy Hdr → Station tommy Hdr
    next served = record {
      window = if ltb 0 (bytes_of p d) then (turn r st.window).0 else refresh r st.window;
      buf = served.buf;
      hashlin = served.hashlin;
    }

    -- A round that takes the first datagram, where its handler ends well, and where it fails.
    busy :
        (done rest : List Delivery) (served : Served tommy Hdr)
        → (turn r st.window).1 ≡ true
        → handle p d st.buf st.hashlin ≡ ok served
        → Does done rest (receive_loop p rs queue (next served)) served.buf served.hashlin
        → Does (d ∷ done) rest (receive_loop p (r ∷ rs) (d ∷ queue) st) st.buf st.hashlin
    unfolding receive_loop receive handle_all
    busy done rest served taken h same =
        rw (taken, h)
          (visible-next (record { station = next served; queue = queue; sent = served.sent ∷ [] })
              rs
            ∙ ap (prepend (served.sent ∷ [])) same
            ∙ handle_all-next served.sent rest (handle_all done served.buf served.hashlin))

    fails :
        (done rest : List Delivery) (f : Fault)
        → (turn r st.window).1 ≡ true
        → handle p d st.buf st.hashlin ≡ fault f
        → Does (d ∷ done) rest (receive_loop p (r ∷ rs) (d ∷ queue) st) st.buf st.hashlin
    unfolding receive_loop receive handle_all
    fails done rest f taken h = rw (taken, h) refl

  no_round :
      (queue : List Delivery) (st : Station tommy Hdr)
      → Does [] queue (receive_loop p [] queue st) st.buf st.hashlin
  unfolding receive_loop handle_all
  no_round queue st = refl

  -- Whatever the clock says and the receive limit holds back, a loop does with the datagrams in the
  -- socket what their handlers do one after the other, up to some datagram, and leaves the others in the
  -- socket: none is lost, none is handled twice, none overtakes another. Where a handler fails so does
  -- the loop.
  pub receive_loop-handle_all :
      (rs : List Round) (queue : List Delivery) (st : Station tommy Hdr)
      → Prefix queue (receive_loop p rs queue st) st.buf st.hashlin
  unfolding receive
  receive_loop-handle_all [] queue st = ([], queue, refl, no_round queue st)
  receive_loop-handle_all (r ∷ rs) [] st =
      let (done, rest, split, same) = receive_loop-handle_all rs [] _ in
      (done, rest, split, idle r rs [] done rest st _ refl same)
  receive_loop-handle_all (r ∷ rs) (d ∷ queue) st = elim (Bool-cases (turn r st.window).1) [
    | inl taken ↦ elim (Run-cases (handle p d st.buf st.hashlin)) [
      | inl (served, h) ↦
          let (done, rest, split, same) =
            receive_loop-handle_all rs queue (next r rs d queue st served) in
          (d ∷ done, rest, ap (◌∷◌ d) split, busy r rs d queue st done rest served taken h same)
      | inr (f, h) ↦ (d ∷ [], queue, refl, fails r rs d queue st [] queue f taken h)
    ]
    | inr over ↦
        let (done, rest, split, same) =
          receive_loop-handle_all rs (d ∷ queue) (record st { window = (turn r st.window).0 }) in
        (
          done,
          rest,
          split,
          idle r rs (d ∷ queue) done rest st (turn r st.window).0 (rw over refl) same,
        )
  ]

  -- A window with room takes what is there.
  turn-takes :
      (r : Round) (w : Window)
      → w.rx_counter < limit_rps
      → r.arrived ≡ true
      → ((turn r w).1 ≡ true) × ((turn r w).0.rx_counter ≤ w.rx_counter + 1)
  unfolding turn refresh
  turn-takes r w room here = ground arith

  refresh-le : (r : Round) (w : Window) → (refresh r w).rx_counter ≤ w.rx_counter
  unfolding refresh
  refresh-le r w = ground arith

  next-count :
      (r : Round) (rs : List Round) (d : Delivery) (queue : List Delivery) (st : Station tommy Hdr)
      (served : Served tommy Hdr)
      → (turn r st.window).0.rx_counter ≤ st.window.rx_counter + 1
      → (next r rs d queue st served).window.rx_counter ≤ st.window.rx_counter + 1
  next-count r rs d queue st served count = elim (Bool-cases (ltb 0 (bytes_of p d))) [
    | inl some ↦ rw some count
    | inr none ↦ rw none (omega (arith, refresh-le r st.window))
  ]

  turn-empty :
      (r : Round) (w : Window) → (turn (record r { arrived = false }) w).0.rx_counter ≤ w.rx_counter
  unfolding turn refresh
  turn-empty r w = ground arith

  -- A worker whose window has room for all datagrams in its socket has handled all of them, in order,
  -- after as many rounds in which `recvfrom` finds the next one, and any further rounds.
  pub receive_loop-drains :
      (rs : List Round) (queue : List Delivery) (st : Station tommy Hdr)
      → length queue ≤ length rs
      → All (λ r. r.arrived ≡ true) rs
      → st.window.rx_counter + length queue ≤ limit_rps
      → visible (receive_loop p rs queue st) ≡ with_rest [] (handle_all queue st.buf st.hashlin)
  unfolding receive
  receive_loop-drains [] [] st many here room = no_round [] st
  receive_loop-drains [] (d ∷ queue) st many here room = absurd (omega arith)
  receive_loop-drains (r ∷ rs) [] st many here room =
      idle r rs [] [] [] st _ refl
        (receive_loop-drains rs [] _ (omega arith) here.1 (omega (arith, turn-empty r st.window)))
  receive_loop-drains (r ∷ rs) (d ∷ queue) st many here room =
      let (taken, count) = turn-takes r st.window (omega arith) here.0 in
      elim (Run-cases (handle p d st.buf st.hashlin)) [
        | inl (served, h) ↦ busy r rs d queue st queue [] served taken h (
            receive_loop-drains rs queue (next r rs d queue st served) (omega arith) here.1
              (omega (arith, next-count r rs d queue st served count)))
        | inr (f, h) ↦ fails r rs d queue st queue [] f taken h
      ]
