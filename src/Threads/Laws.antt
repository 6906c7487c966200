-- ===== src/Threads/Laws.antt =====
-- What every step keeps.
use orbit_cache_public.Prelude.{
  ℕ, zero, suc, ◌+◌, ◌<◌, ◌≡◌, refl, ◌∙◌, ◌==◌, true, Bool-cases, inl, inr, none, some, sum_to,
  sum_to-congr, sum_to-raise, arith,
}
use orbit_cache_public.Threads.{
  Phase, idle, locked, loaded, stored, running, Shared, update, start, Step, acquire, load, store,
  release, Reach, begin, next, id_of, inside,
}

abbrev pub has_id : Phase → ℕ
has_id p = elim (id_of p) [ none ↦ 0 | some i ↦ 1 ]

-- The lock is held by the thread that is inside; a loaded number is the counter's; the numbers that are
-- taken are those below the counter, each by one thread, and as many threads have one.
pub record Inv (n : ℕ) (s : Shared) : Type 0 where
  pub busy : (k : ℕ) → inside (s.phase k) ≡ true → s.holder ≡ some k
  pub held : (k : ℕ) → s.holder ≡ some k → (k < n) × (inside (s.phase k) ≡ true)
  pub fresh : (k i : ℕ) → s.phase k ≡ loaded i → i ≡ s.t_id
  pub low : (k i : ℕ) → id_of (s.phase k) ≡ some i → i < s.t_id
  pub unique : (k l i : ℕ) → id_of (s.phase k) ≡ some i → id_of (s.phase l) ≡ some i → k ≡ l
  pub onto : (i : ℕ) → i < s.t_id → (k : ℕ) × (k < n) × (id_of (s.phase k) ≡ some i)
  pub counted : sum_to n (λ k. has_id (s.phase k)) ≡ s.t_id

sum_zero : (n : ℕ) → sum_to n (λ k. 0) ≡ 0
sum_zero zero = refl
sum_zero (suc n) = omega (arith, sum_zero n)

Inv-start : (n : ℕ) → Inv n start
Inv-start n = record {
  busy = λ k h. ground arith;
  held = λ k h. ground arith;
  fresh = λ k i h. ground arith;
  low = λ k i h. ground arith;
  unique = λ k l i h g. ground arith;
  onto = λ i h. absurd (omega arith);
  counted = sum_zero n;
}

module _ (n : ℕ) (s : Shared) (inv : Inv n s) (k : ℕ) (lt : k < n) where
  Inv-acquire :
      s.phase k ≡ idle
      → s.holder ≡ none
      → Inv n (record s { holder = some k; phase = update s.phase k locked })
  Inv-acquire e free = record {
    busy = λ j h. ground (arith, inv.busy j);
    held = λ j h. ground (arith, lt);
    fresh = λ j i h. ground (arith, inv.fresh j i);
    low = λ j i h. ground (arith, inv.low j i);
    unique = λ j l i h g. ground (arith, inv.unique j l i);
    onto = λ i h. let (m, m_low, owns) = inv.onto i h in (m, m_low, ground (arith, owns, e));
    counted = sum_to-congr n _ _ (λ j l. ground (arith, e)) ∙ inv.counted;
  }

  Inv-load : s.phase k ≡ locked → Inv n (record s { phase = update s.phase k (loaded s.t_id) })
  Inv-load e = record {
    busy = λ j h. ground (arith, inv.busy j, inv.busy k, e);
    held = λ j h. ground (arith, inv.held j);
    fresh = λ j i h. ground (arith, inv.fresh j i);
    low = λ j i h. ground (arith, inv.low j i);
    unique = λ j l i h g. ground (arith, inv.unique j l i);
    onto = λ i h. let (m, m_low, owns) = inv.onto i h in (m, m_low, ground (arith, owns, e));
    counted = sum_to-congr n _ _ (λ j l. ground (arith, e)) ∙ inv.counted;
  }

  Inv-store :
      (i : ℕ)
      → s.phase k ≡ loaded i
      → Inv n (record s { t_id = i + 1; phase = update s.phase k (stored i) })
  Inv-store i e = record {
    busy = λ j h. ground (arith, inv.busy j, inv.busy k, e);
    held = λ j h. ground (arith, inv.held j);
    fresh = λ j m h. ground (arith, inv.fresh j m, inv.busy j, inv.busy k, e, h);
    low = λ j m h. ground (arith, inv.low j m, inv.fresh k i e);
    unique =
        λ j l m h g. ground (arith, inv.unique j l m, inv.low j m, inv.low l m, inv.fresh k i e);
    onto = λ m h. elim (Bool-cases (m == i)) [
      | inl last ↦ (k, lt, ground (arith, last))
      | inr other ↦
          let (o, o_low, owns) = inv.onto m (ground (arith, other, inv.fresh k i e)) in
          (o, o_low, ground (arith, owns, e))
    ];
    counted =
        sum_to-raise n k (λ j. has_id (s.phase j)) _ lt (ground (arith, e))
          (λ j other. ground (arith, other))
        ∙ omega (arith, inv.counted, inv.fresh k i e);
  }

  Inv-release :
      (i : ℕ)
      → s.phase k ≡ stored i
      → Inv n (record s { holder = none; phase = update s.phase k (running i) })
  Inv-release i e = record {
    busy = λ j h. ground (arith, inv.busy j, inv.busy k, e, h);
    held = λ j h. ground arith;
    fresh = λ j m h. ground (arith, inv.fresh j m);
    low = λ j m h. ground (arith, inv.low j m, e);
    unique = λ j l m h g. ground (arith, inv.unique j l m, e);
    onto = λ m h. let (o, o_low, owns) = inv.onto m h in (o, o_low, ground (arith, owns, e));
    counted = sum_to-congr n _ _ (λ j l. ground (arith, e)) ∙ inv.counted;
  }

Step-Inv : {n : ℕ} {s t : Shared} → Step n s t → Inv n s → Inv n t
Step-Inv (acquire {s} k lt e free) inv = Inv-acquire _ s inv k lt e free
Step-Inv (load {s} k lt e) inv = Inv-load _ s inv k lt e
Step-Inv (store {s} k i lt e) inv = Inv-store _ s inv k lt i e
Step-Inv (release {s} k i lt e) inv = Inv-release _ s inv k lt i e

-- What holds of every state that the threads can reach.
pub Reach-Inv : {n : ℕ} {s : Shared} → Reach n s → Inv n s
Reach-Inv begin = Inv-start _
Reach-Inv (next r st) = Step-Inv st (Reach-Inv r)
