-- ===== src/Client/Seq/Laws.antt =====
-- Which sequence numbers still have their key.
use orbit_cache_public.Prelude.{
  ℕ, zero, suc, ◌+◌, ◌%◌, ◌^◌, ◌≤◌, ◌<◌, ◌≡◌, refl, ap, ◌∙◌, List, [], ◌∷◌, ◌++◌, none, some, ◌==◌,
  leb, if◌then◌else◌, set, arith, length, length-set, length-drop, drop,
}
use orbit_cache_public.Text.{overwrite, strncpy_bytes}
use orbit_cache_public.Text.Laws.{length-overwrite, overwrite-append, length-strncpy_bytes}
use orbit_cache_public.Client.Seq.{
  SeqHdr, SeqHdrs, max_seq_hdrs, written, seq_put, seq_get, initial_seq_hdrs,
}

-- Every entry has its 16 bytes.
abbrev pub IsTable : SeqHdrs → Type 0
IsTable t = (i : ℕ) → length (t i).org_key ≡ 16

pub initial-IsTable : IsTable initial_seq_hdrs
initial-IsTable i = refl

length-written :
    (e : SeqHdr) (n : ℕ) (k : List ℕ) → length (written e n k).org_key ≡ length e.org_key
length-written e n k =
    length-set (overwrite (strncpy_bytes 15 k) e.org_key) 15 0
    ∙ length-overwrite (strncpy_bytes 15 k) e.org_key

pub seq_put-IsTable : (t : SeqHdrs) (n : ℕ) (k : List ℕ) → IsTable t → IsTable (seq_put t n k)
unfolding seq_put
seq_put-IsTable t n k h i =
    ground (arith, h i, h (n % max_seq_hdrs), length-written (t (n % max_seq_hdrs)) n k)

set_last : (n : ℕ) (a b : List ℕ) → length a ≡ n → length b ≡ 1 → set (a ++ b) n 0 ≡ a ++ 0 ∷ []
set_last zero [] (x ∷ []) e h = refl
set_last zero [] [] e h = absurd (omega arith)
set_last zero [] (x ∷ y ∷ b) e h = absurd (omega arith)
set_last zero (c ∷ a) b e h = absurd (omega arith)
set_last (suc n) [] b e h = absurd (omega arith)
set_last (suc n) (c ∷ a) b e h = ap (◌∷◌ c) (set_last n a b (omega arith) h)

-- The key array that a put leaves.
pub written_key :
    (e : SeqHdr) (n : ℕ) (k : List ℕ)
    → length e.org_key ≡ 16
    → (written e n k).org_key ≡ strncpy_bytes 15 k ++ 0 ∷ []
written_key e n k h =
    ap (λ a. set a 15 0) (overwrite-append (strncpy_bytes 15 k) e.org_key short)
    ∙ set_last 15 (strncpy_bytes 15 k) (drop (length (strncpy_bytes 15 k)) e.org_key)
        (length-strncpy_bytes 15 k)
        (length-drop (length (strncpy_bytes 15 k)) e.org_key
          ∙ omega (arith, length-strncpy_bytes 15 k))
  where
    short : length (strncpy_bytes 15 k) ≤ length e.org_key
    short = omega (arith, length-strncpy_bytes 15 k)

-- What a put does to each lookup.
seq_get-seq_put :
    (t : SeqHdrs) (n i : ℕ) (k : List ℕ)
    → IsTable t
    → seq_get (seq_put t n k) i ≡ (
        if n == i
        then some (strncpy_bytes 15 k ++ 0 ∷ [])
        else if n % max_seq_hdrs == i % max_seq_hdrs
        then none
        else seq_get t i)
unfolding seq_get seq_put
seq_get-seq_put t n i k h =
    ground (arith, written_key (t (n % max_seq_hdrs)) n k (h (n % max_seq_hdrs)))

-- The puts of `n` requests in a row from sequence number `s` on.
abbrev pub put_run : SeqHdrs → ℕ → (ℕ → List ℕ) → ℕ → SeqHdrs
put_run t s keys zero = t
put_run t s keys (suc n) = seq_put (put_run t s keys n) (s + n) (keys (s + n))

put_run-IsTable :
    (t : SeqHdrs) (s : ℕ) (keys : ℕ → List ℕ) (n : ℕ) → IsTable t → IsTable (put_run t s keys n)
put_run-IsTable t s keys zero h = h
put_run-IsTable t s keys (suc n) h =
    seq_put-IsTable (put_run t s keys n) (s + n) (keys (s + n)) (put_run-IsTable t s keys n h)

mod_gap : (i j : ℕ) → i < j → j % max_seq_hdrs ≡ i % max_seq_hdrs → i + max_seq_hdrs ≤ j
mod_gap i j h e = omega arith

mod_same : (i j : ℕ) → j ≡ i + max_seq_hdrs → j % max_seq_hdrs ≡ i % max_seq_hdrs
mod_same i j h = omega arith

-- After `n` requests in a row, whose sequence numbers do not wrap around in 32 bits, each of them has its
-- key in the table, as long as fewer than `MAX_SEQ_HDRS` have followed it; an older one is reported as
-- lost.
pub seq_get-put_run :
    (t : SeqHdrs) (s : ℕ) (keys : ℕ → List ℕ) (n i : ℕ)
    → IsTable t
    → s + n ≤ 2 ^ 32
    → s ≤ i
    → i < s + n
    → seq_get (put_run t s keys n) i ≡ (
        if leb (s + n) (i + max_seq_hdrs) then some (strncpy_bytes 15 (keys i) ++ 0 ∷ []) else none)
seq_get-put_run t s keys zero i h small p q = absurd (omega arith)
seq_get-put_run t s keys (suc n) i h small p q =
    seq_get-seq_put (put_run t s keys n) (s + n) i (keys (s + n)) (put_run-IsTable t s keys n h)
    ∙ ground (
      arith,
      seq_get-put_run t s keys n i h (omega (arith, small)) p,
      mod_gap i (s + n),
      mod_same i (s + n),
    )
