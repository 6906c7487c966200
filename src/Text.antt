-- ===== src/Text.antt =====
-- C strings and char arrays (the calls of string.h that header.h, client.c, server.c and
-- preload.c make). A byte is a number below 256. An array is the list of its bytes, a string the
-- list of its characters without the NUL that ends it. A `char *` into an array stands for
-- `until_nul` of the bytes from there on, what lies behind the array included.
pub mod Laws
pub mod Print
pub mod Number
use orbit_cache_public.Prelude.{
  ℕ, zero, suc, ◌-◌, Bool, true, false, ◌&&◌, List, [], ◌∷◌, ◌++◌, ◌==◌, if◌then◌else◌, take, drop,
  length, set,
}

-- The string that a pointer to these bytes stands for; `strdup` copies it, `strlen` is its length.
abbrev pub until_nul : List ℕ → List ℕ
until_nul [] = []
until_nul (c ∷ s) = let rest = until_nul s in if c == 0 then [] else c ∷ rest

-- The bytes that `strncpy(dst, s, n)` writes: it pads with NULs, and ends a long string with none.
abbrev pub strncpy_bytes : ℕ → List ℕ → List ℕ
strncpy_bytes zero s = []
strncpy_bytes (suc n) [] = 0 ∷ strncpy_bytes n []
strncpy_bytes (suc n) (c ∷ s) = c ∷ strncpy_bytes n s

-- The bytes that `snprintf(dst, n, "%s", s)` writes: at most `n`, the last of them a NUL.
abbrev pub snprintf_bytes : ℕ → List ℕ → List ℕ
snprintf_bytes zero s = []
snprintf_bytes (suc n) s = take n s ++ 0 ∷ []

-- Bytes written over the front of an array; those behind its end are not modelled.
abbrev pub overwrite {ℓ} : {A : Type ℓ} → List A → List A → List A
overwrite [] dst = dst
overwrite (x ∷ xs) [] = []
overwrite (x ∷ xs) (y ∷ dst) = x ∷ overwrite xs dst

-- `strcmp(s, t) == 0`
abbrev pub str_eq : List ℕ → List ℕ → Bool
str_eq [] [] = true
str_eq [] (d ∷ t) = false
str_eq (c ∷ s) [] = false
str_eq (c ∷ s) (d ∷ t) = c == d && str_eq s t

-- `strncmp(s, t, n) == 0`
abbrev pub strncmp_eq : ℕ → List ℕ → List ℕ → Bool
strncmp_eq n s t = str_eq (take n s) (take n t)
