-- ===== src/Workload/Laws.antt =====
-- The searches end, and find the place of the random number.
use orbit_cache_public.Prelude.{
  ℕ, zero, suc, ◌+◌, ◌-◌, ◌/◌, ◌≤◌, ◌<◌, ◌≡◌, refl, Bool, true, false, ltb, if◌then◌else◌, arith,
  Bool-cases, inl, inr,
}
use orbit_cache_public.Workload.{zipf_loop, zipf_search, key_loop, key_search}

-- The indices that pass the test come after those that do not.
abbrev pub IsCumulative : (ℕ → Bool) → Type 0
IsCumulative test = (i j : ℕ) → i ≤ j → test i ≡ true → test j ≡ true

-- `n` splits the interval from `low` up to `past`: the test fails below `n` and holds from `n` on.
pub record Splits (test : ℕ → Bool) (low past n : ℕ) : Type 0 where
  pub from : low ≤ n
  pub to : n ≤ past
  pub fails : (i : ℕ) → low ≤ i → i < n → test i ≡ false
  pub holds : (i : ℕ) → n ≤ i → i < past → test i ≡ true

module _ (test : ℕ → Bool) (c : IsCumulative test) (low mid past n : ℕ) (from : low ≤ mid)
    (to : mid < past) where
  Splits-lower : test mid ≡ true → Splits test low mid n → Splits test low past n
  Splits-lower passes s = record {
    from = s.from;
    to = omega (arith, s.to);
    fails = s.fails;
    holds = λ i a b. elim (Bool-cases (ltb i mid)) [
      | inl l ↦ s.holds i a (ground (arith, l))
      | inr l ↦ c mid i (ground (arith, l)) passes
    ];
  }

  Splits-upper : test mid ≡ false → Splits test (mid + 1) past n → Splits test low past n
  Splits-upper refuses s = record {
    from = omega (arith, s.from);
    to = s.to;
    fails = λ i a b. elim (Bool-cases (ltb mid i)) [
      | inl l ↦ s.fails i (ground (arith, l)) b
      | inr l ↦ elim (Bool-cases (test i)) [
        | inl t ↦ absurd (ground (arith, c i mid (ground (arith, l)) t, refuses))
        | inr t ↦ t
      ]
    ];
    holds = s.holds;
  }

Splits-empty : (test : ℕ → Bool) (low past : ℕ) → low ≤ past → past ≤ low → Splits test low past low
Splits-empty test low past h h' = record {
  from = omega arith;
  to = h;
  fails = λ i a b. absurd (omega arith);
  holds = λ i a b. absurd (omega arith);
}

key_loop-Splits :
    (fuel : ℕ) (below : ℕ → Bool) (low past : ℕ)
    → IsCumulative below
    → low ≤ past
    → past ≤ fuel + low
    → Splits below low past (key_loop fuel below low past)
unfolding key_loop
key_loop-Splits zero below low past c h f = Splits-empty below low past h (omega arith)
key_loop-Splits (suc fuel) below low past c h f = elim (Bool-cases (ltb low past)) [
  | inl more ↦ elim (Bool-cases (below ((low + past - 1) / 2))) [
    | inl under ↦
        rw (more, under)
          (Splits-lower below c low ((low + past - 1) / 2) past _ (ground (arith, more))
            (ground (arith, more)) under
            (key_loop-Splits fuel below low ((low + past - 1) / 2) c (ground (arith, more))
              (ground (arith, more))))
    | inr over ↦
        rw (more, over)
          (Splits-upper below c low ((low + past - 1) / 2) past _ (ground (arith, more))
            (ground (arith, more)) over
            (key_loop-Splits fuel below ((low + past - 1) / 2 + 1) past c (ground (arith, more))
              (ground (arith, more))))
  ]
  | inr done ↦ rw done (Splits-empty below low past h (ground (arith, done)))
]

abbrev pub refused : (ℕ → Bool) → ℕ → Bool
refused above i = if above i then false else true

zipf_loop-Splits :
    (fuel : ℕ) (above : ℕ → Bool) (low high : ℕ)
    → IsCumulative (refused above)
    → low ≤ high
    → high ≤ fuel + low
    → Splits (refused above) low high (zipf_loop fuel above low high)
unfolding zipf_loop
zipf_loop-Splits zero above low high c h f = Splits-empty (refused above) low high h (omega arith)
zipf_loop-Splits (suc fuel) above low high c h f = elim (Bool-cases (ltb low high)) [
  | inl more ↦ elim (Bool-cases (above (low + (high - low) / 2))) [
    | inl over ↦
        rw (more, over)
          (Splits-upper (refused above) c low (low + (high - low) / 2) high _ (ground (arith, more))
            (ground (arith, more)) (rw over refl)
            (zipf_loop-Splits fuel above (low + (high - low) / 2 + 1) high c (ground (arith, more))
              (ground (arith, more))))
    | inr under ↦
        rw (more, under)
          (Splits-lower (refused above) c low (low + (high - low) / 2) high _ (ground (arith, more))
            (ground (arith, more)) (rw under refl)
            (zipf_loop-Splits fuel above low (low + (high - low) / 2) c (ground (arith, more))
              (ground (arith, more))))
  ]
  | inr done ↦ rw done (Splits-empty (refused above) low high h (ground (arith, done)))
]

-- Where the distribution grows, the search of `get_key` ends within as many rounds as there are
-- keys, with the first key whose cumulative probability lies above the random number; that is the
-- number of keys, which is no key, where there is none.
pub key_search-Splits :
    (below : ℕ → Bool) (size : ℕ) → IsCumulative below → Splits below 0 size (key_search below size)
unfolding key_search
key_search-Splits below size c = key_loop-Splits size below 0 size c (omega arith) (omega arith)

-- Where the distribution grows, the search of `zipf_random` ends within as many rounds as there are
-- keys, with the first key, counted from 1, that the random number does not exceed, or with the
-- last one.
pub zipf_search-Splits :
    (above : ℕ → Bool) (size : ℕ)
    → IsCumulative (refused above)
    → 1 ≤ size
    → Splits (refused above) 1 size (zipf_search above size)
unfolding zipf_search
zipf_search-Splits above size c h = zipf_loop-Splits size above 1 size c h (omega arith)
