-- ===== src/Client/Send/Laws.antt =====
-- How many requests a Tx worker sends, and when.
use orbit_cache_public.Prelude.{
  ℕ, zero, suc, ◌+◌, ◌-◌, ◌^◌, ◌≤◌, ◌<◌, ◌≡◌, refl, ap, subst, ◌∙◌, ◌⊎◌, inl, inr, true, false,
  Bool-cases, List, [], ◌∷◌, ◌++◌, append_assoc, length, ltb, leb, u64, max, if◌then◌else◌, Option,
  some, arith,
}
use orbit_cache_public.Prelude.Int.{pos_part, eq_ℤ}
use orbit_cache_public.Server.Startup.{nocache, netcache, orbitcache}
use orbit_cache_public.Client.Main.{ClientArgs}
use orbit_cache_public.Client.Request.{Sent, request_nocache, request_netcache, request_orbitcache}
use orbit_cache_public.Client.Send.{
  requests_per_worker, wait, Turn, Tx, next_request, tx_round, tx_loop,
}

-- From any reading on, one of the next `fuel` readings has reached each time up to `last`.
abbrev pub Passes : ℕ → (ℕ → ℕ) → ℕ → Type 0
Passes fuel clock last =
    (temp_time j : ℕ) → temp_time ≤ last → (k : ℕ) × (k < fuel) × (temp_time ≤ clock (j + k))

wait_total :
    (fuel k : ℕ) (clock : ℕ → ℕ) (temp_time j : ℕ)
    → k < fuel
    → temp_time ≤ clock (j + k)
    → (m : ℕ) × (wait fuel clock temp_time j ≡ some (suc m)) × (temp_time ≤ clock m)
unfolding wait
wait_total zero k clock temp_time j lt late = absurd (omega arith)
wait_total (suc fuel) zero clock temp_time j lt late =
    let reached : temp_time ≤ clock j = subst (λ n. temp_time ≤ clock n) (omega arith) late in
    (j, ground arith, reached)
wait_total (suc fuel) (suc k) clock temp_time j lt late =
    elim (Bool-cases (ltb (clock j) temp_time)) [
      | inl early ↦ rw early (
          wait_total fuel k clock temp_time (j + 1) (omega arith)
            (subst (λ n. temp_time ≤ clock n) (omega arith) late))
      | inr now ↦ rw now (j, ap some (omega arith), ground (arith, now))
    ]

abbrev pub sum_gaps : List Turn → ℕ
sum_gaps [] = 0
sum_gaps (turn ∷ turns) = turn.gap + sum_gaps turns

-- Each request is sent at a reading of the clock that is not before the time `from` and the gaps up to
-- its own.
abbrev pub Paced : ℕ → List Turn → List (ℕ × Option Sent) → Type 0
Paced from turns [] = Unit
Paced from [] (s ∷ ss) = ⊥
Paced from (turn ∷ turns) (s ∷ ss) = (from + turn.gap ≤ s.0) × Paced (from + turn.gap) turns ss

-- The protocol is one of the three.
abbrev pub IsKnown : ClientArgs → Type 0
IsKnown args =
    (args.protocol_id ≡ nocache) ⊎ (args.protocol_id ≡ netcache) ⊎ (args.protocol_id ≡ orbitcache)

-- The datagram of the protocol for the draws of a turn.
abbrev pub request_of : ℕ → ClientArgs → Tx → Turn → Sent
request_of workers args st turn =
    let wratio = pos_part args.wratio in
    if eq_ℤ args.protocol_id nocache
    then request_nocache workers wratio turn.draw
    else if eq_ℤ args.protocol_id netcache
    then request_netcache workers wratio turn.draw
    else (request_orbitcache workers wratio turn.draw st.seq_hdrs st.seq_global).0

-- Each request is the one of its turn.
abbrev pub Asked : ℕ → ClientArgs → Tx → List Turn → List (ℕ × Option Sent) → Type 0
Asked workers args st turns [] = Unit
Asked workers args st [] (s ∷ ss) = ⊥
Asked workers args st (turn ∷ turns) ((now, sent) ∷ ss) =
    (sent ≡ some (request_of workers args st turn))
    × Asked workers args (tx_round workers args now turn st) turns ss

next_request_lem :
    (workers : ℕ) (args : ClientArgs) (st : Tx) (turn : Turn)
    → IsKnown args
    → (next_request workers args turn.draw st.seq_hdrs st.seq_global).0
      ≡ some (request_of workers args st turn)
unfolding next_request
next_request_lem workers args st turn (inl first) = rw first refl
next_request_lem workers args st turn (inr (inl second)) = rw second refl
next_request_lem workers args st turn (inr (inr third)) = rw third refl

-- The loop ended after `left` more requests.
pub record Finished (workers : ℕ) (args : ClientArgs) (st : Tx) (turns : List Turn) (left : ℕ)
    (result : Option Tx) : Type 0 where
  pub last : Tx
  pub ended : result ≡ some last
  pub counted : last.counter ≡ st.counter + left
  pub new : List (ℕ × Option Sent)
  pub sent : last.sent ≡ st.sent ++ new
  pub many : length new ≡ left
  pub paced : Paced st.temp_time turns new
  pub asked : Asked workers args st turns new

module _ (workers : ℕ) (args : ClientArgs) (known : IsKnown args) (fuel last : ℕ)
    (clock : ℕ → ℕ) where
  abbrev round_sent : Tx → Turn → ℕ → Option Sent
  round_sent st turn now = (next_request workers args turn.draw st.seq_hdrs st.seq_global).0

  Finished-one :
      (st : Tx) (turn : Turn) (turns : List Turn) (now : ℕ)
      → st.temp_time + turn.gap ≤ now
      → Finished workers args st (turn ∷ turns) 1 (some (tx_round workers args now turn st))
  unfolding tx_round
  Finished-one st turn turns now late = record {
    last = tx_round workers args now turn st;
    ended = refl;
    counted = refl;
    new = (now, round_sent st turn now) ∷ [];
    sent = refl;
    many = refl;
    paced = (late, tt);
    asked = (next_request_lem workers args st turn known, tt);
  }

  Finished-step :
      (st : Tx) (turn : Turn) (turns : List Turn) (now left : ℕ) (result : Option Tx)
      → st.temp_time + turn.gap ≤ now
      → st.temp_time + turn.gap < 2 ^ 64
      → Finished workers args (tx_round workers args now turn st) turns left result
      → Finished workers args st (turn ∷ turns) (suc left) result
  unfolding tx_round
  Finished-step st turn turns now left result late small f = record {
    last = f.last;
    ended = f.ended;
    counted = omega (arith, f.counted);
    new = (now, round_sent st turn now) ∷ f.new;
    sent = f.sent ∙ append_assoc st.sent ((now, round_sent st turn now) ∷ []) f.new;
    many = ap suc f.many;
    paced = (
      late,
      subst (λ from. Paced from turns f.new) {y = st.temp_time + turn.gap} (omega arith) f.paced,
    );
    asked = (next_request_lem workers args st turn known, f.asked);
  }

  -- The test at the end of the round.
  last_or_more :
      (turn : Turn) (turns : List Turn) (now left : ℕ) (st : Tx) (rest : Option Tx)
      → st.temp_time + turn.gap ≤ now
      → st.temp_time + turn.gap < 2 ^ 64
      → ((more : ℕ)
          → left ≡ suc more
          → Finished workers args (tx_round workers args now turn st) turns (suc more) rest)
      → ((st.counter + suc left ≡ requests_per_worker args)
          ⊎ ((left ≡ 0) × (requests_per_worker args ≤ st.counter + 1)))
      → Finished workers args st (turn ∷ turns) (suc left) (
          if leb (requests_per_worker args) (st.counter + 1)
          then some (tx_round workers args now turn st)
          else rest)
  last_or_more turn turns now zero st rest late small f share =
      let enough : leb (requests_per_worker args) (st.counter + 1) ≡ true = ground (arith, share) in
      rw enough (Finished-one st turn turns now late)
  last_or_more turn turns now (suc more) st rest late small f share =
      let short : leb (requests_per_worker args) (st.counter + 1) ≡ false = ground (arith, share) in
      rw short (Finished-step st turn turns now (suc more) rest late small (f more refl))

  -- The requests still to send are those up to the number of requests, and one at least.
  tx_loop-Finished :
      (turns : List Turn) (j left : ℕ) (st : Tx)
      → Passes fuel clock last
      → st.temp_time + sum_gaps turns ≤ last
      → last < 2 ^ 64
      → ((st.counter + suc left ≡ requests_per_worker args)
          ⊎ ((left ≡ 0) × (requests_per_worker args ≤ st.counter + 1)))
      → left < length turns
      → Finished workers args st turns (suc left) (tx_loop workers args fuel clock turns j st)
  unfolding tx_loop tx_round
  tx_loop-Finished [] j left st passes in_time small share enough = absurd (omega arith)
  tx_loop-Finished (turn ∷ turns) j left st passes in_time small share enough =
      let wraps : u64 (st.temp_time + turn.gap) ≡ st.temp_time + turn.gap = omega arith in
      let (k, soon, late) = passes (st.temp_time + turn.gap) j (omega arith) in
      let (m, ready, reached) = wait_total fuel k clock (st.temp_time + turn.gap) j soon late in
      rw (tx_loop, wraps, ready)
        (last_or_more turn turns (clock (suc m - 1)) left st _
          (subst (λ n. st.temp_time + turn.gap ≤ clock n) (omega arith) reached) (omega arith)
          (λ more e.
            tx_loop-Finished turns (suc m) more (tx_round workers args (clock (suc m - 1)) turn st)
              passes (omega arith) small (ground (arith, share, e)) (omega (arith, e)))
          share)

-- A Tx worker of one of the three protocols whose clock passes the time of the last request, from any reading on, within the fuel, and
-- that has turns enough, ends: it has sent as many requests as it was given, and one where it was given
-- none, each the datagram of the protocol for its draws, and each not before the start and the gaps up to
-- its own.
pub tx_loop_lem :
    (workers : ℕ) (args : ClientArgs) (fuel last : ℕ) (clock : ℕ → ℕ) (turns : List Turn) (j : ℕ)
    (st : Tx)
    → IsKnown args
    → Passes fuel clock last
    → st.temp_time + sum_gaps turns ≤ last
    → last < 2 ^ 64
    → st.counter ≡ 0
    → max 1 (requests_per_worker args) ≤ length turns
    → Finished workers args st turns
        (max 1 (requests_per_worker args))
        (tx_loop workers args fuel clock turns j st)
tx_loop_lem workers args fuel last clock turns j st known passes in_time small fresh enough =
    subst (λ left. Finished workers args st turns left (tx_loop workers args fuel clock turns j st))
      {x = suc (max 1 (requests_per_worker args) - 1)} (omega arith)
      (tx_loop-Finished workers args known fuel last clock turns j
        (max 1 (requests_per_worker args) - 1) st passes in_time small (ground arith) (omega arith))
