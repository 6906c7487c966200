-- ===== src/Os/Laws.antt =====
-- The calls of a program, and what holds of its end.
use orbit_cache_public.Prelude.{
  ◌⊎◌, inl, inr, All, Option, none, some, ℕ, zero, suc, ◌+◌, ◌≡◌, refl, ap, sym, ◌∙◌, append_assoc,
  List, [], ◌∷◌, ◌++◌, Bool, true, false,
}
use orbit_cache_public.Os.{
  Call, create, join, Prog, returns, exits, calls, ◌>>=◌, ◌>>◌, does, fails, require, opens,
  for_from,
}

-- All calls, in order.
abbrev pub trace {ℓ} : {A : Type ℓ} → Prog A → List Call
trace (returns a) = []
trace (exits n) = []
trace (calls c p) = c ∷ trace p

pub data Ending {ℓ} (A : Type ℓ) : Type ℓ where
  returned : A → Ending A
  exited : ℕ → Ending A

abbrev pub ending {ℓ} : {A : Type ℓ} → Prog A → Ending A
ending (returns a) = Ending.returned a
ending (exits n) = Ending.exited n
ending (calls c p) = ending p

-- A program that ends well makes the calls of its parts, one after the other.
pub trace-bind {ℓ κ} :
    {A : Type ℓ} {B : Type κ} (p : Prog A) (f : A → Prog B) (a : A)
    → ending p ≡ Ending.returned a
    → trace (p >>= f) ≡ trace p ++ trace (f a)
trace-bind (returns a') f a e =
    ap (λ x. trace (f x)) (ap (λ z. elim z [ Ending.returned x ↦ x | Ending.exited n ↦ a' ]) e)
trace-bind (exits n) f a e = cc
trace-bind (calls c p) f a e = ap (◌∷◌ c) (trace-bind p f a e)

-- A call that has no part in the threads.
abbrev pub IsQuiet : Call → Type 0
IsQuiet (create t i) = ⊥
IsQuiet (join t i) = ⊥
IsQuiet c = Unit

-- Every call meets `C`, a return meets `P`, and an exit has the status 1.
module _ {A : Type 0} where
  abbrev pub Runs : (Call → Type 0) → (A → Type 0) → Prog A → Type 0
  Runs C P (returns a) = P a
  Runs C P (exits n) = n ≡ 1
  Runs C P (calls c p) = C c × Runs C P p

pub Runs-bind :
    {A B : Type 0} (C : Call → Type 0) (P : A → Type 0) (Q : B → Type 0) (p : Prog A)
    (f : A → Prog B)
    → Runs C P p
    → ((a : A) → P a → Runs C Q (f a))
    → Runs C Q (p >>= f)
Runs-bind C P Q (returns a) f h k = k a h
Runs-bind C P Q (exits n) f h k = h
Runs-bind C P Q (calls c p) f h k = (h.0, Runs-bind C P Q p f h.1 k)

pub Runs-calls :
    {A : Type 0} (C : Call → Type 0) (P : A → Type 0) (c : Call) (p : Prog A)
    → C c
    → Runs C P p
    → Runs C P (calls c p)
Runs-calls C P c p h k = (h, k)

-- A program ends with the status 1, or returns; in both cases its calls meet `C`.
pub Runs-ends :
    {A : Type 0} (C : Call → Type 0) (P : A → Type 0) (p : Prog A)
    → Runs C P p
    → All C (trace p)
      × ((ending p ≡ Ending.exited 1) ⊎ ((a : A) × (ending p ≡ Ending.returned a) × P a))
Runs-ends C P (returns a) h = (tt, inr (a, refl, h))
Runs-ends C P (exits n) h = (tt, inl (ap Ending.exited h))
Runs-ends C P (calls c p) h =
    let (calls_meet, end) = Runs-ends C P p h.1 in ((h.0, calls_meet), end)

-- A program that ends well ends as what follows it.
pub ending-bind {ℓ κ} :
    {A : Type ℓ} {B : Type κ} (p : Prog A) (f : A → Prog B) (a : A)
    → ending p ≡ Ending.returned a
    → ending (p >>= f) ≡ ending (f a)
ending-bind (returns a') f a e =
    ap (λ x. ending (f x)) (ap (λ z. elim z [ Ending.returned x ↦ x | Ending.exited n ↦ a' ]) e)
ending-bind (exits n) f a e = cc
ending-bind (calls c p) f a e = ending-bind p f a e

-- After an exit nothing is called.
pub exit-bind {ℓ κ} :
    {A : Type ℓ} {B : Type κ} (p : Prog A) (f : A → Prog B) (n : ℕ)
    → ending p ≡ Ending.exited n
    → (ending (p >>= f) ≡ Ending.exited n) × (trace (p >>= f) ≡ trace p)
exit-bind (returns a) f n e = cc
exit-bind (exits m) f n e = (
  ap (λ z. elim z [ Ending.returned x ↦ Ending.exited m | Ending.exited k ↦ Ending.exited k ]) e,
  refl,
)
exit-bind (calls c p) f n e = let (end, same) = exit-bind p f n e in (end, ap (◌∷◌ c) same)

pub Runs-fails :
    {A : Type 0} (C : Call → Type 0) (P : A → Type 0) (cs : List Call)
    → All C cs
    → Runs C P (fails cs 1)
Runs-fails C P [] h = refl
Runs-fails C P (c ∷ cs) h = (h.0, Runs-fails C P cs h.1)

pub Runs-require :
    (C : Call → Type 0) (b : Bool) (cs : List Call)
    → All C cs
    → Runs C (λ _. b ≡ true) (require b cs)
unfolding require
Runs-require C true cs h = refl
Runs-require C false cs h = Runs-fails C _ cs h

pub Runs-opens :
    (C : Call → Type 0) (o : Option ℕ) (cs : List Call)
    → All C cs
    → Runs C (λ n. o ≡ some n) (opens o cs)
unfolding opens
Runs-opens C (some n) cs h = refl
Runs-opens C none cs h = Runs-fails C _ cs h

-- `f from`, `f (from + 1)`, ..., as many as the first number.
abbrev pub each {ℓ} : {A : Type ℓ} → ℕ → ℕ → (ℕ → A) → List A
each zero from f = []
each (suc n) from f = f from ∷ each n (from + 1) f

-- A loop that only calls makes its calls in order, and then goes on.
pub for_from-trace {ℓ} :
    {B : Type ℓ} (n i : ℕ) (f : ℕ → Call) (p : Prog B)
    → (trace (for_from n i (λ k. does (f k)) >> p) ≡ each n i f ++ trace p)
      × (ending (for_from n i (λ k. does (f k)) >> p) ≡ ending p)
for_from-trace zero i f p = (refl, refl)
for_from-trace (suc n) i f p =
    let (calls_made, end) = for_from-trace n (i + 1) f p in (ap (◌∷◌ (f i)) calls_made, end)

-- The calls for `from`, `from + 1`, ..., as many as the first number.
abbrev pub for_calls : ℕ → ℕ → (ℕ → List Call) → List Call
for_calls zero from f = []
for_calls (suc n) from f = f from ++ for_calls n (from + 1) f

-- A program makes these calls in order and returns this, or it makes a first part of them and ends with
-- the status 1.
abbrev pub InOrder {ℓ} : {A : Type ℓ} → Prog A → List Call → A → Type ℓ
InOrder p cs a =
    ((rest : List Call) × (cs ≡ trace p ++ rest) × (ending p ≡ Ending.exited 1))
    ⊎ ((trace p ≡ cs) × (ending p ≡ Ending.returned a))

pub InOrder-bind {ℓ κ} :
    {A : Type ℓ} {B : Type κ} (p : Prog A) (f : A → Prog B) (cs ds : List Call) (a : A) (b : B)
    → InOrder p cs a
    → InOrder (f a) ds b
    → InOrder (p >>= f) (cs ++ ds) b
InOrder-bind p f cs ds a b (inl (rest, split, out)) second =
    let (exit, same) = exit-bind p f 1 out in
    inl (
      rest ++ ds,
      ap (λ t. t ++ ds) split
          ∙ append_assoc (trace p) rest ds
          ∙ ap (λ t. t ++ (rest ++ ds)) (sym same),
      exit,
    )
InOrder-bind p f cs ds a b (inr (all, back)) (inl (rest, split, out)) = inl (
  rest,
  ap (λ t. cs ++ t) split
      ∙ sym (append_assoc cs (trace (f a)) rest)
      ∙ ap (λ t. (t ++ trace (f a)) ++ rest) (sym all)
      ∙ ap (λ t. t ++ rest) (sym (trace-bind p f a back)),
  ending-bind p f a back ∙ out,
)
InOrder-bind p f cs ds a b (inr (all, back)) (inr (all', back')) = inr (
  trace-bind p f a back ∙ ap (λ t. t ++ trace (f a)) all ∙ ap (λ t. cs ++ t) all',
  ending-bind p f a back ∙ back',
)

-- A call after which the process may be gone.
pub InOrder-call : (c : Call) (b : Bool) → InOrder (does c >> require b []) (c ∷ []) tt
unfolding require
InOrder-call c true = inr (refl, refl)
InOrder-call c false = inl ([], refl, refl)

pub InOrder-for_from :
    (n i : ℕ) (body : ℕ → Prog (Unit {0})) (f : ℕ → List Call)
    → ((k : ℕ) → InOrder (body k) (f k) tt)
    → InOrder (for_from n i body) (for_calls n i f) tt
InOrder-for_from zero i body f h = inr (refl, refl)
InOrder-for_from (suc n) i body f h =
    InOrder-bind (body i) (λ _. for_from n (i + 1) body) (f i) (for_calls n (i + 1) f) tt tt (h i)
      (InOrder-for_from n (i + 1) body f h)
