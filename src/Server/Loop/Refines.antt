-- ===== src/Server/Loop/Refines.antt =====
-- A worker whose handler implements a specification on values implements it in its loop.
use orbit_cache_public.Prelude.{
  ℕ, ◌+◌, ◌≤◌, ◌≡◌, true, length, All, refl, ap, ◌∙◌, sym, subst, List, [], ◌∷◌, ◌++◌,
}
use orbit_cache_public.Run.{Run, ok, fault}
use orbit_cache_public.Store.HashTable.{Tommy}
use orbit_cache_public.Store.{Store}
use orbit_cache_public.Server.Memory.{Served}
use orbit_cache_public.Server.Window.{limit_rps, Round}
use orbit_cache_public.Server.Values.{Values, Holds}
use orbit_cache_public.Server.Loop.{Delivery, Protocol, Station, Progress, handle, receive_loop}
use orbit_cache_public.Server.Loop.Order.{
  Handled, handle_all, visible, with_rest, receive_loop-handle_all, receive_loop-drains,
}

-- A specification: the values, a datagram, what a client has in its buffer after each datagram of the
-- answer, given what it had before, and the values afterwards.
abbrev pub Spec : Type 0 → Type 1
Spec Hdr = Values → Delivery → List (Hdr → Hdr) → Values → Type 0

-- The datagrams of a list, one after the other.
pub data Runs {Hdr : Type 0} (spec : Spec Hdr)
    : Values → List Delivery → List (List (Hdr → Hdr)) → Values → Type 0 where
  stop : {values : Values} → Runs spec values [] [] values
  next :
      {d : Delivery} {ds : List Delivery} {answer : List (Hdr → Hdr)}
      {answers : List (List (Hdr → Hdr))} {values values' values'' : Values}
      → spec values d answer values'
      → Runs spec values' ds answers values''
      → Runs spec values (d ∷ ds) (answer ∷ answers) values''

module _ {tommy : Tommy} {Hdr : Type 0} (p : Protocol tommy Hdr) (IsHdr : Hdr → Type 0) where
  -- The datagrams reach a client, with any buffer, as the answer says.
  abbrev pub Arrive : List (Hdr → Hdr) → List (List ℕ) → Type 0
  Arrive [] [] = Unit
  Arrive (a ∷ others) (d ∷ ds) =
      ((client : Hdr) → IsHdr client → p.recv d client ≡ a client) × Arrive others ds
  Arrive others ds = ⊥

  abbrev pub ArriveAll : List (List (Hdr → Hdr)) → List (List (List ℕ)) → Type 0
  ArriveAll [] [] = Unit
  ArriveAll (a ∷ others) (d ∷ ds) = Arrive a d × ArriveAll others ds
  ArriveAll others ds = ⊥

  -- A handler ends well, with this answer, these values and a buffer that is a header.
  pub record Done (answer : List (Hdr → Hdr)) (values : Values) (r : Run (Served tommy Hdr))
      : Type 0 where
    pub served : Served tommy Hdr
    pub returns : r ≡ ok served
    pub holds : Holds tommy values served.hashlin
    pub header : IsHdr served.buf
    pub arrive : Arrive answer served.sent

  -- What a protocol promises: its handler implements the specification.
  pub record Meets (spec : Spec Hdr) : Type 0 where
    pub serves :
        {values values' : Values} {d : Delivery} {answer : List (Hdr → Hdr)}
        → spec values d answer values'
        → (buf : Hdr) → IsHdr buf
        → (s : Store tommy) → Holds tommy values s
        → Done answer values' (handle p d buf s)

  module _ (spec : Spec Hdr) (meets : Meets spec) where
    -- All datagrams are handled and answered as specified.
    record AllDone (answers : List (List (Hdr → Hdr))) (values : Values) (r : Run (Handled p))
        : Type 0 where
      all : Handled p
      returns : r ≡ ok all
      holds : Holds tommy values all.hashlin
      header : IsHdr all.buf
      arrive : ArriveAll answers all.sent

    handle_all-AllDone :
        {values values' : Values} {ds : List Delivery} {answers : List (List (Hdr → Hdr))}
        → Runs spec values ds answers values'
        → (buf : Hdr) → IsHdr buf
        → (s : Store tommy) → Holds tommy values s
        → AllDone answers values' (handle_all p ds buf s)
    unfolding handle_all
    handle_all-AllDone stop buf fits s h = record {
      all = _;
      returns = refl;
      holds = h;
      header = fits;
      arrive = tt;
    }
    handle_all-AllDone (next one others) buf fits s h =
        let first = meets.serves one buf fits s h in
        let rest =
          handle_all-AllDone others first.served.buf first.header first.served.hashlin
            first.holds in
        record {
          all = record rest.all { sent = first.served.sent ∷ rest.all.sent };
          returns = rw (first.returns, rest.returns) refl;
          holds = rest.holds;
          header = rest.header;
          arrive = (first.arrive, rest.arrive);
        }

    -- A run over two lists stops between them.
    record Split (values : Values) (done rest : List Delivery) (answers : List (List (Hdr → Hdr)))
        (values' : Values) : Type 0 where
      middle : Values
      given : List (List (Hdr → Hdr))
      due : List (List (Hdr → Hdr))
      split : answers ≡ given ++ due
      before : Runs spec values done given middle
      after : Runs spec middle rest due values'

    Runs-Split :
        (done rest : List Delivery) {values values' : Values} {answers : List (List (Hdr → Hdr))}
        → Runs spec values (done ++ rest) answers values'
        → Split values done rest answers values'
    Runs-Split [] rest r = record {
      middle = _;
      given = [];
      due = _;
      split = refl;
      before = stop;
      after = r;
    }
    Runs-Split (d ∷ done) rest (next {answer = answer} one others) =
        let s = Runs-Split done rest others in
        record {
          middle = s.middle;
          given = answer ∷ s.given;
          due = s.due;
          split = ap (◌∷◌ answer) s.split;
          before = next one s.before;
          after = s.after;
        }

    -- Where a loop stands in a run: the datagrams that it has handled and those in its socket, each with
    -- their part of the answers, and the values in between.
    pub record Stands (values : Values) (queue : List Delivery) (answers : List (List (Hdr → Hdr)))
        (values' : Values) (r : Run (Progress tommy Hdr)) : Type 0 where
      pub progress : Progress tommy Hdr
      pub returns : r ≡ ok progress
      pub handled : List Delivery
      pub in_order : queue ≡ handled ++ progress.queue
      pub middle : Values
      pub given : List (List (Hdr → Hdr))
      pub due : List (List (Hdr → Hdr))
      pub split : answers ≡ given ++ due
      pub before : Runs spec values handled given middle
      pub after : Runs spec middle progress.queue due values'
      pub holds : Holds tommy middle progress.station.hashlin
      pub header : IsHdr progress.station.buf
      pub arrive : ArriveAll given progress.sent

    abbrev handled_of : Progress tommy Hdr → Handled p
    handled_of o = record { buf = o.station.buf; hashlin = o.station.hashlin; sent = o.sent }

    visible-ok :
        (m : Run (Progress tommy Hdr)) (h : Handled p) (rest : List Delivery)
        → visible p m ≡ ok (h, rest)
        → (o : Progress tommy Hdr) × (m ≡ ok o) × (handled_of o ≡ h) × (o.queue ≡ rest)
    visible-ok (ok o) h rest e =
        let seen : (handled_of o, o.queue) ≡ (h, rest) =
          ap (λ m. elim m [ ok x ↦ x | fault f ↦ (h, rest) ]) e in
        (o, refl, ap (λ x. x.0) seen, ap (λ x. x.1) seen)
    visible-ok (fault f) h rest e = cc

    module _ {values values' : Values} {queue : List Delivery} {answers : List (List (Hdr → Hdr))}
        (runs : Runs spec values queue answers values') (rs : List Round) (st : Station tommy Hdr)
        (fits : IsHdr st.buf) (h : Holds tommy values st.hashlin) where
      -- A worker that holds the values, and has in its socket datagrams that the specification takes, never
      -- fails, whatever the clock says. It has given the answers to a first part of them, in order, holds
      -- the values after those, and has the others still in its socket.
      pub receive_loop-Stands : Stands values queue answers values' (receive_loop p rs queue st)
      receive_loop-Stands =
          let (done, rest, split, same) = receive_loop-handle_all p rs queue st in
          let s =
            Runs-Split done rest (subst (λ ds. Runs spec values ds answers values') split runs) in
          let all = handle_all-AllDone s.before st.buf fits st.hashlin h in
          let (o, returns, seen, queued) =
            visible-ok (receive_loop p rs queue st) all.all rest
              (same ∙ ap (with_rest p rest) all.returns) in
          record {
            progress = o;
            returns = returns;
            handled = done;
            in_order = split ∙ ap (λ q. done ++ q) (sym queued);
            middle = s.middle;
            given = s.given;
            due = s.due;
            split = s.split;
            before = s.before;
            after = subst (λ q. Runs spec s.middle q s.due values') (sym queued) s.after;
            holds = subst (λ a. Holds tommy s.middle a.hashlin) (sym seen) all.holds;
            header = subst (λ a. IsHdr a.buf) (sym seen) all.header;
            arrive = subst (λ a. ArriveAll s.given a.sent) (sym seen) all.arrive;
          }

      -- If the window has room for all of them, and `recvfrom` finds one in each round, then all answers are
      -- given after as many rounds.
      pub receive_loop-completes :
          length queue ≤ length rs
          → All (λ r. r.arrived ≡ true) rs
          → st.window.rx_counter + length queue ≤ limit_rps
          → (o : Progress tommy Hdr) × (receive_loop p rs queue st ≡ ok o)
            × (o.queue ≡ [])
            × Holds tommy values' o.station.hashlin
            × ArriveAll answers o.sent
      receive_loop-completes many here room =
          let all = handle_all-AllDone runs st.buf fits st.hashlin h in
          let (o, returns, seen, queued) =
            visible-ok (receive_loop p rs queue st) all.all [] (
              receive_loop-drains p rs queue st many here room ∙ ap (with_rest p []) all.returns) in
          (
            o,
            returns,
            queued,
            subst (λ a. Holds tommy values' a.hashlin) (sym seen) all.holds,
            subst (λ a. ArriveAll answers a.sent) (sym seen) all.arrive,
          )
