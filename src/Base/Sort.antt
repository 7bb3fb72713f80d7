-- ===== src/Base/Sort.antt =====
-- `std::sort` on a vector of unsigned numbers, as an insertion sort.
use mathlib.Core.List.{List, [], ◌∷◌}
use mathlib.Core.Path.{◌≡◌, refl}
use mathlib.Core.Bool.{false, ◌||◌}
use Prim.Native.Nat.{ℕ, suc, ◌≤◌}
use native.Mathlib.Omega.{arith}
use tangor.Base.Tests.{◌==◌, leb, if◌then◌else◌}
use tangor.Base.Lists.{length, elem, Distinct}

insert : ℕ → List ℕ → List ℕ
insert a [] = a ∷ []
insert a (x ∷ xs) = if leb a x then a ∷ x ∷ xs else x ∷ insert a xs

unfoldable pub sort : List ℕ → List ℕ
unfolding insert
sort [] = []
sort (x ∷ xs) = insert x (sort xs)

-- Every number of the list is at least `a`.
abbrev pub AllGe : ℕ → List ℕ → Type 0
AllGe a [] = Unit {0}
AllGe a (x ∷ xs) = (a ≤ x) × AllGe a xs

abbrev pub IsSorted : List ℕ → Type 0
IsSorted [] = Unit {0}
IsSorted (x ∷ xs) = AllGe x xs × IsSorted xs

AllGe-mono : (a b : ℕ) (xs : List ℕ) → a ≤ b → AllGe b xs → AllGe a xs
AllGe-mono a b [] h g = tt
AllGe-mono a b (x ∷ xs) h g = (omega arith, AllGe-mono a b xs h g.1)

AllGe-insert : (a b : ℕ) (xs : List ℕ) → b ≤ a → AllGe b xs → AllGe b (insert a xs)
unfolding insert
AllGe-insert a b [] h g = (h, tt)
AllGe-insert a b (x ∷ xs) h g = ground (arith, AllGe-insert a b xs h g.1)

insert-IsSorted : (a : ℕ) (xs : List ℕ) → IsSorted xs → IsSorted (insert a xs)
unfolding insert
insert-IsSorted a [] s = (tt, tt)
insert-IsSorted a (x ∷ xs) s =
    ground (arith, insert-IsSorted a xs s.1, AllGe-insert a x xs, AllGe-mono a x xs)

pub sort-IsSorted : (xs : List ℕ) → IsSorted (sort xs)
unfolding sort
sort-IsSorted [] = tt
sort-IsSorted (x ∷ xs) = insert-IsSorted x (sort xs) (sort-IsSorted xs)

elem-insert : (b a : ℕ) (xs : List ℕ) → elem b (insert a xs) ≡ (a == b || elem b xs)
unfolding insert
elem-insert b a [] = refl
elem-insert b a (x ∷ xs) = ground (arith, elem-insert b a xs)

pub elem-sort : (b : ℕ) (xs : List ℕ) → elem b (sort xs) ≡ elem b xs
unfolding sort
elem-sort b [] = refl
elem-sort b (x ∷ xs) = ground (arith, elem-insert b x (sort xs), elem-sort b xs)

length-insert : (a : ℕ) (xs : List ℕ) → length (insert a xs) ≡ suc (length xs)
unfolding insert
length-insert a [] = refl
length-insert a (x ∷ xs) = ground (arith, length-insert a xs)

pub length-sort : (xs : List ℕ) → length (sort xs) ≡ length xs
unfolding sort
length-sort [] = refl
length-sort (x ∷ xs) = ground (arith, length-insert x (sort xs), length-sort xs)

insert-Distinct : (a : ℕ) (xs : List ℕ) → elem a xs ≡ false → Distinct xs → Distinct (insert a xs)
unfolding insert
insert-Distinct a [] h d = (refl, tt)
insert-Distinct a (x ∷ xs) h d = ground (arith, elem-insert x a xs, insert-Distinct a xs)

pub sort-Distinct : (xs : List ℕ) → Distinct xs → Distinct (sort xs)
unfolding sort
sort-Distinct [] d = tt
sort-Distinct (x ∷ xs) d =
    insert-Distinct x (sort xs) (ground (arith, elem-sort x xs)) (sort-Distinct xs d.1)
