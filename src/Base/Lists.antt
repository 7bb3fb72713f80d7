-- ===== src/Base/Lists.antt =====
-- Lists measured and indexed by native numbers, under the library's names; membership by
-- recursion; and the standard library's `resize`, `find` and `sort`.
use Prim.Native.Nat.{ℕ, zero, suc, ◌+◌, ◌<◌}
use mathlib.Core.Path.{◌≡◌, refl, ap}
use mathlib.Core.Logic.{◌≢◌, inl, inr}
use mathlib.Core.Bool.{Bool, true, false, ◌||◌}
use mathlib.Core.Option.{Option, none, some}
use mathlib.Core.List.{List, [], ◌∷◌, ◌++◌, map}
use native.Mathlib.Omega.{arith}
use tangor.Base.Tests.{◌==◌, if◌then◌else◌, Bool-cases}

module _ {ℓ} {A : Type ℓ} where
  abbrev pub length : List A → ℕ
  length [] = 0
  length (x ∷ xs) = suc (length xs)

  abbrev pub get_elem? : List A → ℕ → Option A
  get_elem? [] i = none
  get_elem? (x ∷ xs) zero = some x
  get_elem? (x ∷ xs) (suc i) = get_elem? xs i

  abbrev pub get_or : List A → ℕ → A → A
  get_or [] i d = d
  get_or (x ∷ xs) zero d = x
  get_or (x ∷ xs) (suc i) d = get_or xs i d

  -- A write out of bounds changes nothing.
  abbrev pub set : List A → ℕ → A → List A
  set [] i v = []
  set (x ∷ xs) zero v = v ∷ xs
  set (x ∷ xs) (suc i) v = x ∷ set xs i v

  abbrev pub replicate : ℕ → A → List A
  replicate zero a = []
  replicate (suc n) a = a ∷ replicate n a

  -- `std::vector::resize`: cuts the end off, or adds value-initialised elements `d`.
  abbrev pub resize : ℕ → A → List A → List A
  resize zero d xs = []
  resize (suc n) d [] = replicate (suc n) d
  resize (suc n) d (x ∷ xs) = x ∷ resize n d xs

  pub length-append : (xs ys : List A) → length (xs ++ ys) ≡ length xs + length ys
  length-append [] ys = omega arith
  length-append (x ∷ xs) ys = omega (arith, length-append xs ys)

  pub length-set : (xs : List A) (i : ℕ) (v : A) → length (set xs i v) ≡ length xs
  length-set [] i v = refl
  length-set (x ∷ xs) zero v = refl
  length-set (x ∷ xs) (suc i) v = ap suc (length-set xs i v)

  pub length-replicate : (n : ℕ) (a : A) → length (replicate n a) ≡ n
  length-replicate zero a = refl
  length-replicate (suc n) a = ap suc (length-replicate n a)

  pub length-resize : (n : ℕ) (d : A) (xs : List A) → length (resize n d xs) ≡ n
  length-resize zero d xs = refl
  length-resize (suc n) d [] = ap suc (length-replicate n d)
  length-resize (suc n) d (x ∷ xs) = ap suc (length-resize n d xs)

  pub get_elem?-set_self :
      (xs : List A) (i : ℕ) (v : A) → i < length xs → get_elem? (set xs i v) i ≡ some v
  get_elem?-set_self [] i v h = elim h [ ]
  get_elem?-set_self (x ∷ xs) zero v h = refl
  get_elem?-set_self (x ∷ xs) (suc i) v h = get_elem?-set_self xs i v (omega arith)

  pub get_elem?-set_ne :
      (xs : List A) (i j : ℕ) (v : A) → i ≢ j → get_elem? (set xs i v) j ≡ get_elem? xs j
  get_elem?-set_ne [] i j v h = refl
  get_elem?-set_ne (x ∷ xs) zero zero v h = absurd (h refl)
  get_elem?-set_ne (x ∷ xs) zero (suc j) v h = refl
  get_elem?-set_ne (x ∷ xs) (suc i) zero v h = refl
  get_elem?-set_ne (x ∷ xs) (suc i) (suc j) v h = get_elem?-set_ne xs i j v (λ e. h (ap suc e))

  pub get_elem?-lt : (xs : List A) (i : ℕ) {a : A} → get_elem? xs i ≡ some a → i < length xs
  get_elem?-lt [] i h = absurd (ground arith)
  get_elem?-lt (x ∷ xs) zero h = omega arith
  get_elem?-lt (x ∷ xs) (suc i) h = omega (arith, get_elem?-lt xs i h)

-- Whether a number stands in a list.
abbrev pub elem : ℕ → List ℕ → Bool
elem a [] = false
elem a (x ∷ xs) = x == a || elem a xs

abbrev pub Has : ℕ → List ℕ → Type 0
Has a xs = elem a xs ≡ true

abbrev shift : Option ℕ → Option ℕ
shift none = none
shift (some i) = some (suc i)

-- `std::find` over a whole vector: the distance of the first hit, and `none` for `end()`.
abbrev pub find : List ℕ → ℕ → Option ℕ
find [] a = none
find (x ∷ xs) a = if x == a then some zero else shift (find xs a)

pub find-some : (xs : List ℕ) (a i : ℕ) → find xs a ≡ some i → get_elem? xs i ≡ some a
find-some [] a i h = absurd (ground arith)
find-some (x ∷ xs) a zero h = ground arith
find-some (x ∷ xs) a (suc i) h = ground (arith, find-some xs a i)

pub find-Has : (xs : List ℕ) (a : ℕ) → Has a xs → (i : ℕ) × (find xs a ≡ some i)
find-Has [] a h = cc
find-Has (x ∷ xs) a h = elim (Bool-cases (x == a)) [
  | inl e ↦ (zero, rw e)
  | inr e ↦ let (i, p) = find-Has xs a (rw e at h) in (suc i, rw (e, p))
]

pub find-none : (xs : List ℕ) (a : ℕ) → elem a xs ≡ false → find xs a ≡ none
find-none [] a h = refl
find-none (x ∷ xs) a h = ground (arith, find-none xs a)

pub get_elem?-Has : (xs : List ℕ) (a i : ℕ) → get_elem? xs i ≡ some a → Has a xs
get_elem?-Has [] a i h = absurd (ground arith)
get_elem?-Has (x ∷ xs) a zero h = ground arith
get_elem?-Has (x ∷ xs) a (suc i) h = ground (arith, get_elem?-Has xs a i)

pub elem-append : (a : ℕ) (xs ys : List ℕ) → elem a (xs ++ ys) ≡ (elem a xs || elem a ys)
elem-append a [] ys = refl
elem-append a (x ∷ xs) ys = ground (arith, elem-append a xs ys)

-- No number stands twice.
abbrev pub Distinct : List ℕ → Type 0
Distinct [] = Unit {0}
Distinct (x ∷ xs) = (elem x xs ≡ false) × Distinct xs

pub Distinct-snoc :
    (xs : List ℕ) (a : ℕ) → Distinct xs → elem a xs ≡ false → Distinct (xs ++ a ∷ [])
Distinct-snoc [] a d h = ground arith
Distinct-snoc (x ∷ xs) a d h = ground (arith, elem-append x xs (a ∷ []), Distinct-snoc xs a d.1)

module _ {ℓ} {A : Type ℓ} where
  pub get_or-some : (xs : List A) (i : ℕ) (d a : A) → get_elem? xs i ≡ some a → get_or xs i d ≡ a
  get_or-some [] i d a h = absurd (ground arith)
  get_or-some (x ∷ xs) zero d a h = ground arith
  get_or-some (x ∷ xs) (suc i) d a h = get_or-some xs i d a h

  pub get_elem?-map {κ} :
      {B : Type κ} (f : A → B) (xs : List A) (i : ℕ) {a : A}
      → get_elem? xs i ≡ some a
      → get_elem? (map f xs) i ≡ some (f a)
  get_elem?-map f [] i h = absurd (ground arith)
  get_elem?-map f (x ∷ xs) zero h = ground arith
  get_elem?-map f (x ∷ xs) (suc i) h = get_elem?-map f xs i h

  pub get_elem?-resize :
      (n : ℕ) (d : A) (xs : List A) (i : ℕ) {a : A}
      → i < n
      → get_elem? xs i ≡ some a
      → get_elem? (resize n d xs) i ≡ some a
  get_elem?-resize n d [] i h e = absurd (ground arith)
  get_elem?-resize zero d (x ∷ xs) i h e = elim h [ ]
  get_elem?-resize (suc n) d (x ∷ xs) zero h e = e
  get_elem?-resize (suc n) d (x ∷ xs) (suc i) h e = get_elem?-resize n d xs i (omega arith) e

-- In a list without repetitions the first hit is the only one.
pub find-Distinct :
    (xs : List ℕ) (a i : ℕ) → Distinct xs → get_elem? xs i ≡ some a → find xs a ≡ some i
find-Distinct [] a i d h = absurd (ground arith)
find-Distinct (x ∷ xs) a zero d h = ground arith
find-Distinct (x ∷ xs) a (suc i) d h =
    ground (arith, find-Distinct xs a i d.1, get_elem?-Has xs a i)
