-- ===== src/Server/Memory/Laws.antt =====
-- The string that a write stores, and the sizes that it computes.
use orbit_cache_public.Prelude.{
  ℕ, zero, suc, ◌+◌, ◌-◌, ◌≤◌, ◌<◌, ◌^◌, ◌≡◌, refl, ap, ◌∙◌, append-nil, List, ◌∷◌, ◌++◌, length,
  arith, length-replicate,
}
use orbit_cache_public.Text.{until_nul}
use orbit_cache_public.Run.{ok, fault, stack_overflow}
use orbit_cache_public.Server.Memory.{Memory, letters, value_str, size_t_sub, Room}

until_nul-letters :
    (n : ℕ) (after : List ℕ) → until_nul (letters n ++ after) ≡ letters n ++ until_nul after
unfolding letters
until_nul-letters zero after = refl
until_nul-letters (suc n) after = ap (◌∷◌ b'A') (until_nul-letters n after)

pub length-letters : (n : ℕ) → length (letters n) ≡ n
unfolding letters
length-letters n = length-replicate n b'A'

-- With room on the stack the string is the letters and what lies behind them up to a NUL.
pub value_str-ok :
    (memory : Memory) (n : ℕ)
    → n ≤ memory.stack_left
    → value_str memory n ≡ ok (letters n ++ until_nul memory.after_value)
unfolding value_str
value_str-ok memory n h = rw (until_nul-letters n memory.after_value) (ground arith)

pub value_str-overflow :
    (memory : Memory) (n : ℕ) → memory.stack_left < n → value_str memory n ≡ fault stack_overflow
unfolding value_str
value_str-overflow memory n h = ground arith

pub size_t_sub-add : (n k : ℕ) → n + k < 2 ^ 64 → size_t_sub (n + k) n ≡ k
size_t_sub-add n k h = omega arith

pub size_t_sub-wrap : (n k : ℕ) → n < k → k < 2 ^ 64 → size_t_sub n k ≡ n + 2 ^ 64 - k
size_t_sub-wrap n k h l = omega arith

pub value_str-Room :
    (memory : Memory) (head m : ℕ)
    → Room m memory
    → head + m < 2 ^ 64
    → value_str memory (size_t_sub (head + m) head) ≡ ok (letters m)
value_str-Room memory head m room lt =
    ap (value_str memory) (size_t_sub-add head m lt)
    ∙ value_str-ok memory m room.stack
    ∙ rw (room.ends, append-nil (letters m)) refl
