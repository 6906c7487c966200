-- ===== src/Threads/Safety.antt =====
-- No two threads get the same number, every number is given out, and the threads do not block each other.
use orbit_cache_public.Prelude.{
  ℕ, zero, suc, ◌+◌, ◌*◌, ◌≤◌, ◌<◌, ◌≡◌, refl, sym, ◌∙◌, ap, subst, ◌⊎◌, ◌==◌, true, Bool-cases,
  inl, inr, some, Option-cases, sum_to, sum_to-raise, arith,
}
use orbit_cache_public.Threads.{
  Phase, idle, locked, loaded, stored, running, Shared, update, Step, acquire, load, store, release,
  Reach, begin, next, id_of, inside,
}
use orbit_cache_public.Threads.Laws.{has_id, Reach-Inv}

sum_le : (n m : ℕ) (f : ℕ → ℕ) → ((k : ℕ) → f k ≤ m) → sum_to n f ≤ m * n
sum_le zero m f h = omega arith
sum_le (suc n) m f h = omega (arith, sum_le n m f h, h n)

has_id-le : (p : Phase) → has_id p ≤ 1
has_id-le p = ground arith

-- In every state that n threads can reach, two threads that run with the same number are the same
-- thread, and the number is below n.
pub thread_ids_unique :
    {n : ℕ} {s : Shared}
    → Reach n s
    → (k l i : ℕ) → s.phase k ≡ running i
    → s.phase l ≡ running i
    → (k ≡ l) × (i < n)
thread_ids_unique {n} {s} r k l i e d =
    let inv = Reach-Inv r in
    let few = sum_le n 1 (λ j. has_id (s.phase j)) (λ j. has_id-le (s.phase j)) in
    let mine : id_of (s.phase k) ≡ some i = rw e refl in
    (inv.unique k l i mine (rw d refl), omega (arith, inv.low k i mine, few, inv.counted))

abbrev pub IsRunning : Phase → Type 0
IsRunning p = (i : ℕ) × (p ≡ running i)

all_have :
    (n : ℕ) (f : ℕ → Phase) → ((k : ℕ) → k < n → IsRunning (f k)) → sum_to n (λ k. has_id (f k)) ≡ n
all_have zero f h = refl
all_have (suc n) f h =
    let (i, e) = h n (omega arith) in
    let one : has_id (f n) ≡ 1 = rw e refl in
    omega (arith, all_have n f (λ k l. h k (omega arith)), one)

-- Where all n threads run, each number below n is that of one of them.
pub thread_ids_onto :
    {n : ℕ} {s : Shared}
    → Reach n s
    → ((k : ℕ) → k < n → IsRunning (s.phase k))
    → (i : ℕ) → i < n
    → (k : ℕ) × (k < n) × (s.phase k ≡ running i)
thread_ids_onto {n} {s} r all i lt =
    let inv = Reach-Inv r in
    let (k, low, owns) = inv.onto i (omega (arith, inv.counted, all_have n s.phase all)) in
    let (j, runs) = all k low in
    let same : j ≡ i = ground (arith, owns, runs) in (k, low, runs ∙ ap running same)

stage : (p : Phase) → IsRunning p ⊎ (p ≡ idle) ⊎ (inside p ≡ true)
stage idle = inr (inl refl)
stage locked = inr (inr refl)
stage (loaded i) = inr (inr refl)
stage (stored i) = inr (inr refl)
stage (running i) = inl (i, refl)

all_or_one :
    (n : ℕ) (f : ℕ → Phase)
    → ((k : ℕ) → k < n → IsRunning (f k))
      ⊎ ((k : ℕ) × (k < n) × ((f k ≡ idle) ⊎ (inside (f k) ≡ true)))
all_or_one zero f = inl (λ k lt. absurd (omega arith))
all_or_one (suc n) f = elim (stage (f n)) [
  | inr rest ↦ inr (n, omega arith, rest)
  | inl last ↦ elim (all_or_one n f) [
    | inr (k, lt, rest) ↦ inr (k, omega arith, rest)
    | inl all ↦ inl (λ k lt. elim (Bool-cases (k == n)) [
      | inl same ↦ subst (λ m. IsRunning (f m)) {x = n} (ground (arith, same)) last
      | inr other ↦ all k (ground (arith, other))
    ])
  ]
]

-- The thread that is inside has a step.
step_inside :
    {n : ℕ} (s : Shared) (k : ℕ)
    → k < n
    → (p : Phase) → s.phase k ≡ p
    → inside p ≡ true
    → (t : Shared) × Step n s t
step_inside s k lt idle e h = absurd (cc h)
step_inside s k lt locked e h = (_, load k lt e)
step_inside s k lt (loaded i) e h = (_, store k i lt e)
step_inside s k lt (stored i) e h = (_, release k i lt e)
step_inside s k lt (running i) e h = absurd (cc h)

-- The threads never block each other: in every state that they can reach, all of them run, or one of
-- them has a step.
pub threads-progress :
    {n : ℕ} {s : Shared}
    → Reach n s
    → ((k : ℕ) → k < n → IsRunning (s.phase k)) ⊎ ((t : Shared) × Step n s t)
threads-progress {n} {s} r =
    let inv = Reach-Inv r in
    elim (all_or_one n s.phase) [
      | inl all ↦ inl all
      | inr (k, lt, waiting) ↦ elim (Option-cases s.holder) [
        | inr (h, holds) ↦
            let (h_lt, within) = inv.held h holds in
            inr (step_inside s h h_lt (s.phase h) refl within)
        | inl free ↦ elim waiting [
          | inl first ↦ inr (_, acquire k lt first free)
          | inr within ↦ inr (step_inside s k lt (s.phase k) refl within)
        ]
      ]
    ]

abbrev progress : Phase → ℕ
progress idle = 0
progress locked = 1
progress (loaded i) = 2
progress (stored i) = 3
progress (running i) = 4

-- The number of steps so far.
abbrev pub steps : {n : ℕ} {s : Shared} → Reach n s → ℕ
steps begin = 0
steps (next r st) = steps r + 1

progress-update :
    (n : ℕ) (phase : ℕ → Phase) (k : ℕ) (p : Phase)
    → k < n
    → progress p ≡ progress (phase k) + 1
    → sum_to n (λ j. progress (update phase k p j)) ≡ sum_to n (λ j. progress (phase j)) + 1
progress-update n phase k p lt more =
    sum_to-raise n k (λ j. progress (phase j)) _ lt (ground (arith, more))
      (λ j other. ground (arith, other))

Step-progress :
    {n : ℕ} {s t : Shared}
    → Step n s t
    → sum_to n (λ j. progress (t.phase j)) ≡ sum_to n (λ j. progress (s.phase j)) + 1
Step-progress (acquire {s} k lt e free) = progress-update _ s.phase k locked lt (rw e refl)
Step-progress (load {s} k lt e) = progress-update _ s.phase k (loaded s.t_id) lt (rw e refl)
Step-progress (store {s} k i lt e) = progress-update _ s.phase k (stored i) lt (rw e refl)
Step-progress (release {s} k i lt e) = progress-update _ s.phase k (running i) lt (rw e refl)

sum_none : (n : ℕ) → sum_to n (λ k. 0) ≡ 0
sum_none zero = refl
sum_none (suc n) = omega (arith, sum_none n)

steps-progress :
    {n : ℕ} {s : Shared} (r : Reach n s) → steps r ≡ sum_to n (λ j. progress (s.phase j))
steps-progress {n} begin = sym (sum_none n)
steps-progress (next r st) = omega (arith, steps-progress r, Step-progress st)

-- However the steps of n threads come, there are at most four of each thread.
pub threads-steps : {n : ℕ} {s : Shared} (r : Reach n s) → steps r ≤ 4 * n
threads-steps {n} {s} r =
    omega (arith, steps-progress r, sum_le n 4 (λ j. progress (s.phase j)) (λ j. ground arith))
