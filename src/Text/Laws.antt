-- ===== src/Text/Laws.antt =====
-- What the string functions do at variables.
use orbit_cache_public.Prelude.{
  ℕ, zero, suc, ◌+◌, ◌≤◌, ◌<◌, ◌≡◌, refl, ap, ◌↔◌, true, List, [], ◌∷◌, ◌++◌, arith, append_assoc,
  append-nil, length-append, length-take, take-append_of_length, length, take, drop, All, ◌==◌,
  Bool-cases, inl, inr, append-nil,
}
use orbit_cache_public.Text.{until_nul, snprintf_bytes, strncpy_bytes, overwrite, str_eq}

-- A string holds no NUL.
abbrev pub IsText : List ℕ → Type 0
IsText = All (λ c. 0 < c)

pub until_nul-text : (s t : List ℕ) → IsText s → until_nul (s ++ 0 ∷ t) ≡ s
until_nul-text [] t h = refl
until_nul-text (c ∷ s) t h = ground (arith, until_nul-text s t h.1)

pub until_nul-IsText : (s : List ℕ) → IsText (until_nul s)
until_nul-IsText [] = tt
until_nul-IsText (c ∷ s) = elim (Bool-cases (c == 0)) [
  | inl e ↦ rw e tt
  | inr e ↦ rw e (ground arith, until_nul-IsText s)
]

pub str_eq_iff : (s t : List ℕ) → (str_eq s t ≡ true) ↔ (s ≡ t)
str_eq_iff [] [] = ground arith
str_eq_iff [] (d ∷ t) = ground arith
str_eq_iff (c ∷ s) [] = ground arith
str_eq_iff (c ∷ s) (d ∷ t) = ground (arith, str_eq_iff s t)

pub str_eq_refl : (s : List ℕ) → str_eq s s ≡ true
str_eq_refl s = (str_eq_iff s s).1 refl

pub length-strncpy_bytes : (n : ℕ) (s : List ℕ) → length (strncpy_bytes n s) ≡ n
length-strncpy_bytes zero s = refl
length-strncpy_bytes (suc n) [] = ap suc (length-strncpy_bytes n [])
length-strncpy_bytes (suc n) (c ∷ s) = ap suc (length-strncpy_bytes n s)

-- A string that leaves room for a NUL comes back from the copy.
pub until_nul-strncpy_bytes :
    (n : ℕ) (s t : List ℕ) → IsText s → length s < n → until_nul (strncpy_bytes n s ++ t) ≡ s
until_nul-strncpy_bytes zero s t h lt = absurd (omega arith)
until_nul-strncpy_bytes (suc n) [] t h lt = refl
until_nul-strncpy_bytes (suc n) (c ∷ s) t h lt = ground (arith, until_nul-strncpy_bytes n s t h.1)

pub length-overwrite {ℓ} : {A : Type ℓ} (xs dst : List A) → length (overwrite xs dst) ≡ length dst
length-overwrite [] dst = refl
length-overwrite (x ∷ xs) [] = refl
length-overwrite (x ∷ xs) (y ∷ dst) = ap suc (length-overwrite xs dst)

pub overwrite-append {ℓ} :
    {A : Type ℓ} (xs dst : List A)
    → length xs ≤ length dst
    → overwrite xs dst ≡ xs ++ drop (length xs) dst
overwrite-append [] dst h = refl
overwrite-append (x ∷ xs) [] h = absurd (omega arith)
overwrite-append (x ∷ xs) (y ∷ dst) h = ap (◌∷◌ x) (overwrite-append xs dst (omega arith))

-- The array holds the string `k` with its NUL, and anything behind it.
pub record Spells (k array : List ℕ) : Type 0 where
  pub text : IsText k
  pub rest : List ℕ
  pub split : array ≡ k ++ 0 ∷ rest

pub until_nul-Spells :
    {k array : List ℕ} (after : List ℕ) → Spells k array → until_nul (array ++ after) ≡ k
until_nul-Spells {k} after s =
    rw (s.split, append_assoc k (0 ∷ s.rest) after) (until_nul-text k (s.rest ++ after) s.text)

pub length-Spells : {k array : List ℕ} → Spells k array → length k < length array
length-Spells {k} s = rw s.split (omega (arith, length-append {0} k (0 ∷ s.rest)))

pub length-snprintf_bytes : (s : List ℕ) → length (snprintf_bytes (length s) s) ≡ length s
length-snprintf_bytes [] = refl
length-snprintf_bytes (c ∷ s) =
    rw (length-append (take (length s) (c ∷ s)) (0 ∷ []), length-take (length s) (c ∷ s))
      (omega arith)

pub take-overwrite {ℓ} :
    {A : Type ℓ} (n : ℕ) (xs dst : List A)
    → length xs ≡ n
    → n ≤ length dst
    → take n (overwrite xs dst) ≡ xs
take-overwrite n xs dst e h =
    rw (overwrite-append xs dst (omega (arith, e)))
      (take-append_of_length n xs (drop (length xs) dst) e)

pub until_nul-array : {k array : List ℕ} → Spells k array → until_nul array ≡ k
until_nul-array {array = a} s = rw (append-nil a) at (until_nul-Spells [] s)

pub strncpy_bytes-room : (s : List ℕ) (n : ℕ) → n ≡ length s + 1 → strncpy_bytes n s ≡ s ++ 0 ∷ []
strncpy_bytes-room s zero e = absurd (omega arith)
strncpy_bytes-room [] (suc zero) e = refl
strncpy_bytes-room [] (suc (suc n)) e = absurd (omega arith)
strncpy_bytes-room (c ∷ s) (suc n) e = ap (◌∷◌ c) (strncpy_bytes-room s n (omega arith))

pub strncpy_bytes_of_length : (n : ℕ) (s : List ℕ) → length s ≡ n → strncpy_bytes n s ≡ s
strncpy_bytes_of_length zero [] e = refl
strncpy_bytes_of_length zero (c ∷ s) e = absurd (omega arith)
strncpy_bytes_of_length (suc n) [] e = absurd (omega arith)
strncpy_bytes_of_length (suc n) (c ∷ s) e = ap (◌∷◌ c) (strncpy_bytes_of_length n s (omega arith))

-- The bytes in front of the NUL that ends a string in an array.
pub take-overwrite_nul :
    (s dst : List ℕ) → length s < length dst → take (length s) (overwrite (s ++ 0 ∷ []) dst) ≡ s
take-overwrite_nul s dst h =
    rw
      (
        overwrite-append (s ++ 0 ∷ []) dst (omega (arith, length-append {0} s (0 ∷ []))),
        append_assoc s (0 ∷ []) (drop (length (s ++ 0 ∷ [])) dst),
      )
      (take-append_of_length (length s) s _ refl)
