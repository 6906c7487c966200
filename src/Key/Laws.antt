-- ===== src/Key/Laws.antt =====
-- `tostring_key` is a base-62 numeral of a permutation of the 64-bit words.
use orbit_cache_public.Prelude.{
  ℕ, zero, suc, ◌+◌, ◌-◌, ◌*◌, ◌/◌, ◌%◌, ◌^◌, ◌≤◌, ◌<◌, ◌≡◌, refl, sym, ap, ◌∙◌, List, [], ◌∷◌,
  ◌++◌, set, get_or, arith, true, Bool, ◌==◌, ◌&&◌, ltb, leb, if◌then◌else◌, length, All,
  All-append, drop_of_length, length-append, length-set, drop-append_of_length,
  take-append_of_length, drop, take, append_assoc, Bool-cases, inl, inr, ==_iff,
}
use native.Mathlib.Nat.{pow-suc}
use orbit_cache_public.Text.{until_nul}
use orbit_cache_public.Text.Laws.{IsText, until_nul-text}
use orbit_cache_public.Hash.Laws.{IsBytes}
use orbit_cache_public.Key.{charset, complex_transform, fill_loop, tostring_key}

-- Five rounds of `7 x + 7`.
pub complex_transform_lem :
    (n : ℕ) → n < 2 ^ 64 → complex_transform n ≡ (16807 * n + 19607) % 2 ^ 64
unfolding complex_transform
complex_transform_lem n h = omega arith

transform_undo :
    (n : ℕ)
    → n < 2 ^ 64
    → ((16807 * n + 19607) % 2 ^ 64 + 2 ^ 64 - 19607) * 13632832042574304791 % 2 ^ 64 ≡ n
transform_undo n h = omega arith

-- `complex_transform` loses nothing of a 64-bit word.
pub complex_transform-injective :
    (a b : ℕ) → a < 2 ^ 64 → b < 2 ^ 64 → complex_transform a ≡ complex_transform b → a ≡ b
complex_transform-injective a b ha hb e =
    sym (transform_undo a ha)
    ∙ ap (λ (t : ℕ). (t + 2 ^ 64 - 19607) * 13632832042574304791 % 2 ^ 64)
        (sym (complex_transform_lem a ha) ∙ e ∙ complex_transform_lem b hb)
    ∙ transform_undo b hb

-- The digit that a character of `charset` stands for.
abbrev pub digit_of : ℕ → ℕ
digit_of c = if leb b'a' c then c - 71 else if leb b'A' c then c - 65 else c + 4

-- The test holds for the `left` numbers from `start` on.
passes : (ℕ → Bool) → ℕ → ℕ → Bool
passes test start zero = true
passes test start (suc left) = passes test (start + 1) left && test start

test_of_passes :
    (test : ℕ → Bool) (start left d : ℕ)
    → passes test start left ≡ true
    → start ≤ d
    → d < start + left
    → test d ≡ true
unfolding passes
test_of_passes test start zero d all from to = absurd (omega (arith, from, to))
test_of_passes test start (suc left) d all from to = elim (Bool-cases (start == d)) [
  | inl here ↦ ap test (sym ((==_iff start d).0 here)) ∙ ground (arith, all)
  | inr later ↦
      test_of_passes test (start + 1) left d (ground (arith, all)) (ground (arith, later))
        (omega (arith, to))
]

char_table :
    passes
      (λ d.
        digit_of (get_or charset d 0) == d
        && (ltb 0 (get_or charset d 0) && ltb (get_or charset d 0) 123))
      0
      62
    ≡ true
unfolding passes
char_table = refl

abbrev pub char_of : ℕ → ℕ
char_of d = get_or charset d 0

char_facts : (d : ℕ) → d < 62 → (digit_of (char_of d) ≡ d) × (0 < char_of d) × (char_of d < 123)
char_facts d h = ground (arith, test_of_passes _ 0 62 d char_table (omega arith) h)

-- The `i` lowest base-62 digits of a number as characters, the lowest last.
abbrev pub numeral : ℕ → ℕ → List ℕ
numeral zero t = []
numeral (suc i) t = numeral i (t / 62) ++ char_of (t % 62) ∷ []

length-numeral : (i t : ℕ) → length (numeral i t) ≡ i
length-numeral zero t = refl
length-numeral (suc i) t = omega (
  arith,
  length-append {0} (numeral i (t / 62)) (char_of (t % 62) ∷ []),
  length-numeral i (t / 62),
)

drop-set :
    (i : ℕ) (key : List ℕ) (c : ℕ) → i < length key → drop i (set key i c) ≡ c ∷ drop (suc i) key
drop-set zero [] c h = absurd (omega arith)
drop-set zero (x ∷ key) c h = refl
drop-set (suc i) [] c h = absurd (omega arith)
drop-set (suc i) (x ∷ key) c h = drop-set i key c (omega arith)

fill_loop-eq-numeral :
    (i t : ℕ) (key : List ℕ) → i ≤ length key → fill_loop i t key ≡ numeral i t ++ drop i key
unfolding fill_loop
fill_loop-eq-numeral zero t key h = refl
fill_loop-eq-numeral (suc i) t key h =
    fill_loop-eq-numeral i (t / 62) (set key i (char_of (t % 62)))
      (omega (arith, length-set {0} key i (char_of (t % 62))))
    ∙ rw (drop-set i key (char_of (t % 62)) h)
        (sym (append_assoc (numeral i (t / 62)) (char_of (t % 62) ∷ []) (drop (suc i) key)))

last_of_set : (key : List ℕ) → length key ≡ 16 → drop 15 (set key 15 0) ≡ 0 ∷ []
last_of_set key h =
    drop-set 15 key 0 (omega arith) ∙ ap (◌∷◌ 0) (drop_of_length 16 key (omega arith))

tostring_key_lem :
    (n : ℕ) (key : List ℕ)
    → length key ≡ 16
    → tostring_key n key ≡ numeral 15 (complex_transform n) ++ 0 ∷ []
unfolding tostring_key
tostring_key_lem n key h =
    fill_loop-eq-numeral 15 (complex_transform n) (set key 15 0)
      (omega (arith, length-set {0} key 15 0))
    ∙ ap (λ l. numeral 15 (complex_transform n) ++ l) (last_of_set key h)

module _ (P : ℕ → Type 0) (h : (d : ℕ) → d < 62 → P (char_of d)) where
  numeral-All : (i t : ℕ) → All P (numeral i t)
  numeral-All zero t = tt
  numeral-All (suc i) t =
      All-append P (numeral i (t / 62)) (char_of (t % 62) ∷ []) (numeral-All i (t / 62))
        (h (t % 62) (omega arith), tt)

numeral-injective : (i a b : ℕ) → a < 62 ^ i → b < 62 ^ i → numeral i a ≡ numeral i b → a ≡ b
numeral-injective zero a b p q e = omega arith
numeral-injective (suc i) a b p q e =
    let high : a / 62 ≡ b / 62 =
      numeral-injective i (a / 62) (b / 62) (omega (arith, pow-suc 62 i))
        (omega (arith, pow-suc 62 i)) (sym (init a) ∙ ap (take i) e ∙ init b) in
    let low : a % 62 ≡ b % 62 =
      sym (last a) ∙ ap (λ (l : List ℕ). digit_of (get_or (drop i l) 0 0)) e ∙ last b in
    omega (arith, high, low)
  where
    init : (t : ℕ) → take i (numeral (suc i) t) ≡ numeral i (t / 62)
    init t = take-append_of_length i (numeral i (t / 62)) _ (length-numeral i (t / 62))

    last : (t : ℕ) → digit_of (get_or (drop i (numeral (suc i) t)) 0 0) ≡ t % 62
    last t =
        rw
          (drop-append_of_length i (numeral i (t / 62)) (char_of (t % 62) ∷ [])
            (length-numeral i (t / 62)))
          (char_facts (t % 62) (omega arith)).0

-- The key string of a number, whatever the array held before.
pub key_of : ℕ → List ℕ
key_of n = numeral 15 (complex_transform n)

pub length-key_of : (n : ℕ) → length (key_of n) ≡ 15
unfolding key_of
length-key_of n = length-numeral 15 (complex_transform n)

pub key_of-IsText : (n : ℕ) → IsText (key_of n)
unfolding key_of
key_of-IsText n = numeral-All (λ c. 0 < c) (λ d h. (char_facts d h).1) 15 (complex_transform n)

pub key_of-IsBytes : (n : ℕ) → IsBytes (key_of n)
unfolding key_of
key_of-IsBytes n =
    numeral-All (λ c. c < 256) (λ d h. omega (arith, char_facts d h)) 15 (complex_transform n)

pub tostring_key-eq-key_of :
    (n : ℕ) (key : List ℕ) → length key ≡ 16 → tostring_key n key ≡ key_of n ++ 0 ∷ []
unfolding key_of
tostring_key-eq-key_of = tostring_key_lem

pub key_of-injective : (a b : ℕ) → a < 2 ^ 64 → b < 2 ^ 64 → key_of a ≡ key_of b → a ≡ b
unfolding key_of
key_of-injective a b ha hb e = complex_transform-injective a b ha hb (
    numeral-injective 15 _ _ (omega (arith, complex_transform_lem a ha))
      (omega (arith, complex_transform_lem b hb)) e)

-- `tostring_key` fills a 16-byte array, whatever it held before, with a string of 15 characters
-- and its NUL, and two 64-bit numbers with the
-- same key string are equal.
pub tostring_key-injective :
    (a b : ℕ) (key key' : List ℕ)
    → length key ≡ 16
    → length key' ≡ 16
    → a < 2 ^ 64
    → b < 2 ^ 64
    → (length (until_nul (tostring_key a key)) ≡ 15)
      × (length (tostring_key a key) ≡ 16)
      × (until_nul (tostring_key a key) ≡ until_nul (tostring_key b key') → a ≡ b)
tostring_key-injective a b key key' h h' ha hb =
    rw
      (
        tostring_key-eq-key_of a key h,
        tostring_key-eq-key_of b key' h',
        until_nul-text (key_of a) [] (key_of-IsText a),
        until_nul-text (key_of b) [] (key_of-IsText b),
      )
      (
        length-key_of a,
        omega (arith, length-append {0} (key_of a) (0 ∷ []), length-key_of a),
        key_of-injective a b ha hb,
      )

pub length-tostring_key :
    (n : ℕ) (key : List ℕ) → length key ≡ 16 → length (tostring_key n key) ≡ 16
length-tostring_key n key h =
    rw (tostring_key-eq-key_of n key h)
      (omega (arith, length-append {0} (key_of n) (0 ∷ []), length-key_of n))

-- The array as the start of any memory spells the key string.
pub tostring_key-IsKey :
    (i : ℕ) (key after : List ℕ)
    → length key ≡ 16
    → until_nul (tostring_key i key ++ after) ≡ key_of i
tostring_key-IsKey i key after h =
    rw (tostring_key-eq-key_of i key h, append_assoc (key_of i) (0 ∷ []) after)
      (until_nul-text (key_of i) after (key_of-IsText i))
