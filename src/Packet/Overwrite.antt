-- ===== src/Packet/Overwrite.antt =====
-- A datagram written over the front of a struct.
use orbit_cache_public.Prelude.{
  ℕ, zero, suc, ◌+◌, ◌≡◌, refl, ap, ◌∙◌, List, [], ◌∷◌, ◌++◌, take, length, arith,
}
use orbit_cache_public.Text.{overwrite}

pub take-append_add : (a x : List ℕ) (n m : ℕ) → m ≡ length a + n → take m (a ++ x) ≡ a ++ take n x
take-append_add [] x n m e = ap (λ k. take k x) (e ∙ omega arith)
take-append_add (c ∷ a) x n zero e = absurd (omega arith)
take-append_add (c ∷ a) x n (suc m) e = ap (◌∷◌ c) (take-append_add a x n m (omega arith))

pub overwrite-append_append :
    (a b x y : List ℕ) → length a ≡ length b → overwrite (a ++ x) (b ++ y) ≡ a ++ overwrite x y
overwrite-append_append [] [] x y h = refl
overwrite-append_append [] (d ∷ b) x y h = absurd (omega arith)
overwrite-append_append (c ∷ a) [] x y h = absurd (omega arith)
overwrite-append_append (c ∷ a) (d ∷ b) x y h =
    ap (◌∷◌ c) (overwrite-append_append a b x y (omega arith))
