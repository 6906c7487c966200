-- ===== src/System/Items.antt =====
-- A list of requests that a worker's specification takes one after the other.
use orbit_cache_public.Prelude.{suc, ◌≡◌, refl, ap, List, [], ◌∷◌, map, All, length}
use orbit_cache_public.Server.Values.{Values}
use orbit_cache_public.Server.Loop.{Delivery}
use orbit_cache_public.Server.Loop.Refines.{Spec, Runs, stop, next}

module _ {Hdr Item : Type 0} (answer_to : Values → Item → List (Hdr → Hdr))
    (after : Values → Item → Values) where
  -- The answers to the requests, each with the values that those before it left.
  abbrev pub answers_to : Values → List Item → List (List (Hdr → Hdr))
  answers_to values [] = []
  answers_to values (item ∷ items) = answer_to values item ∷ answers_to (after values item) items

  abbrev pub after_all : Values → List Item → Values
  after_all values [] = values
  after_all values (item ∷ items) = after_all (after values item) items

  -- The specification takes each request on values that are good, and leaves good values.
  pub items-Runs :
      (spec : Spec Hdr) (delivery : Item → Delivery) (Good : Values → Type 0)
      (Comes : Item → Type 0)
      → ((values : Values) (item : Item)
          → Good values
          → Comes item
          → spec values (delivery item) (answer_to values item) (after values item)
            × Good (after values item))
      → (values : Values) (items : List Item) → Good values
      → All Comes items
      → Runs spec values (map delivery items) (answers_to values items) (after_all values items)
  items-Runs spec delivery Good Comes one values [] good comes = stop
  items-Runs spec delivery Good Comes one values (item ∷ items) good comes =
      let (first, good') = one values item good comes.0 in
      next first (items-Runs spec delivery Good Comes one (after values item) items good' comes.1)

pub length-map : {A B : Type 0} (f : A → B) (xs : List A) → length (map f xs) ≡ length xs
length-map f [] = refl
length-map f (x ∷ xs) = ap suc (length-map f xs)
