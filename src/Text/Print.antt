-- ===== src/Text/Print.antt =====
-- `sprintf` of stdio.h for the directives that the programs use: a letter of `%d`, `%u`, `%lu` or `%s`
-- stands for the next argument.
pub mod Laws
use Prim.Native.String.{String}
use orbit_cache_public.Prelude.{
  ℕ, zero, suc, ◌+◌, ◌/◌, ◌%◌, Bool, true, false, List, [], ◌∷◌, ◌++◌, ltb, ◌==◌, if◌then◌else◌,
}
use orbit_cache_public.Prelude.Int.{pos, negsuc}
use orbit_cache_public.Os.{Arg, num, int, txt}
use orbit_cache_public.Key.{codes}

-- The digits of a number with at most so many of them.
unfoldable pub decimal_of : ℕ → ℕ → List ℕ
decimal_of zero n = []
decimal_of (suc k) n =
    let higher = decimal_of k (n / 10) in
    if ltb n 10 then (b'0' + n) ∷ [] else higher ++ (b'0' + n % 10) ∷ []

-- A `uint64_t` has at most 20 digits.
abbrev pub decimal : ℕ → List ℕ
decimal n = decimal_of 20 n

abbrev pub shown : Arg → List ℕ
shown (num n) = decimal n
shown (int (pos n)) = decimal n
shown (int (negsuc n)) = b'-' ∷ decimal (suc n)
shown (txt s) = s

abbrev pub next_shown : List Arg → List ℕ
next_shown [] = []
next_shown (a ∷ args) = shown a

abbrev pub others : List Arg → List Arg
others [] = []
others (a ∷ args) = args

-- The flag says whether a `%` is being read.
abbrev pub printed_from : List ℕ → Bool → List Arg → List ℕ
printed_from [] inside args = []
printed_from (c ∷ s) false args =
    let plain = c ∷ printed_from s false args in
    let directive = printed_from s true args in if c == b'%' then directive else plain
printed_from (c ∷ s) true args =
    let long = printed_from s true args in
    let done = next_shown args ++ printed_from s false (others args) in
    if c == b'l' then long else done

abbrev pub sprintf : String → List Arg → List ℕ
sprintf format args = printed_from (codes format) false args
