-- ===== src/Client/Receive/Loop.antt =====
-- When the loop of an Rx worker ends, and that the lines of the seconds count every datagram.
use orbit_cache_public.Prelude.{
  ℕ, ◌+◌, ◌≡◌, refl, ap, sym, ◌∙◌, subst, Bool, true, false, Bool-cases, inl, inr, List, [], ◌∷◌,
  ◌++◌, length, none, some, arith,
}
use orbit_cache_public.Run.{Run, ok, fault, OnOk, OnOk-imp}
use orbit_cache_public.Client.Main.{ClientArgs}
use orbit_cache_public.Client.Receive.{
  Poll, Rx, elapsed_second, report_second, is_known, take_in, rx_loop,
}
use orbit_cache_public.Client.Receive.Laws.{
  total_received, arrivals, timer_after, timer_of, TookIn, report_second-total, take_in-lem,
}

-- No second has passed since the last datagram, at any of the rounds.
abbrev pub Busy : List Poll → ℕ → Type 0
Busy [] timer = Unit
Busy (poll ∷ polls) timer =
    (elapsed_second poll.timer_test timer ≡ false) × Busy polls (timer_after poll timer)

-- The first round at which the second has passed, or none.
abbrev pub IsEnd : List Poll → ℕ → Bool → Type 0
IsEnd after timer false = after ≡ []
IsEnd after timer true =
    (poll : Poll) × (rest : List Poll) × (after ≡ poll ∷ rest)
    × (elapsed_second poll.timer_test timer ≡ true)

pub record Received (polls : List Poll) (rx : Rx) (result : Bool × Rx) : Type 0 where
  pub before : List Poll
  pub after : List Poll
  pub all : polls ≡ before ++ after
  pub busy : Busy before rx.timer
  pub end : IsEnd after (timer_of before rx.timer) result.0
  pub total : total_received result.1 ≡ total_received rx + arrivals before
  pub seconds : length result.1.printed + rx.rx_time ≡ length rx.printed + result.1.rx_time

-- A round that the loop goes on after.
Received-step :
    (poll : Poll) (polls : List Poll) (rx next : Rx) (result : Bool × Rx)
    → elapsed_second poll.timer_test rx.timer ≡ false
    → total_received next ≡ total_received rx + (elim poll.received [ none ↦ 0 | some a ↦ 1 ])
    → next.timer ≡ timer_after poll rx.timer
    → length next.printed + rx.rx_time ≡ length rx.printed + next.rx_time
    → Received polls next result
    → Received (poll ∷ polls) rx result
Received-step poll polls rx next result busy total timer seconds r = record {
  before = poll ∷ r.before;
  after = r.after;
  all = ap (◌∷◌ poll) r.all;
  busy = (busy, subst (Busy r.before) timer r.busy);
  end = subst (λ t. IsEnd r.after (timer_of r.before t) result.0) timer r.end;
  total = omega (arith, r.total, total);
  seconds = omega (arith, r.seconds, seconds);
}

goes_on :
    (poll : Poll) (polls : List Poll) (rx : Rx) (loop : Rx → Run (Bool × Rx))
    → elapsed_second poll.timer_test rx.timer ≡ false
    → ((next : Rx) → OnOk (Received polls next) (loop next))
    → (r : Run Rx) → OnOk (TookIn poll (report_second poll rx)) r
    → OnOk (Received (poll ∷ polls) rx) (elim r [ ok next ↦ loop next | fault e ↦ fault e ])
goes_on poll polls rx loop busy rest (fault e) taken = tt
goes_on poll polls rx loop busy rest (ok next) taken =
    let (total, timer, seconds) = report_second-total poll rx in
    OnOk-imp (Received polls next) (Received (poll ∷ polls) rx) (loop next)
      (λ result r.
        Received-step poll polls rx next result busy (omega (arith, taken.0, total))
          (taken.1 ∙ ap (timer_after poll) timer)
          (ap (λ l. length l + rx.rx_time) taken.2
            ∙ seconds
            ∙ ap (λ t. length rx.printed + t) (sym taken.3))
          r)
      (rest next)

-- An Rx worker of a known protocol whose loop ends in no fault goes through the rounds up to the first
-- at which more than a second has passed since the last datagram, or since the start of the timer; it
-- goes through all of them where there is no such round. The lines of the seconds, with the running second,
-- count each datagram of these rounds once, and they are numbered one after the other.
pub rx_loop-Received :
    (workers : ℕ) (args : ClientArgs) (polls : List Poll) (rx : Rx)
    → is_known workers args ≡ true
    → OnOk (Received polls rx) (rx_loop workers args polls rx)
unfolding rx_loop
rx_loop-Received workers args [] rx known = record {
  before = [];
  after = [];
  all = refl;
  busy = tt;
  end = refl;
  total = omega arith;
  seconds = refl;
}
rx_loop-Received workers args (poll ∷ polls) rx known =
    let (total, timer, seconds) = report_second-total poll rx in
    elim (Bool-cases (elapsed_second poll.timer_test rx.timer)) [
      | inl over ↦ rw over (record {
        before = [];
        after = poll ∷ polls;
        all = refl;
        busy = tt;
        end = (poll, polls, refl, over);
        total = omega (arith, total);
        seconds = seconds;
      })
      | inr busy ↦
          rw (busy, known)
            (goes_on poll polls rx (rx_loop workers args polls) busy
              (λ next. rx_loop-Received workers args polls next known)
              (take_in workers args poll poll.received (report_second poll rx))
              (take_in-lem workers args poll poll.received (report_second poll rx)))
    ]
