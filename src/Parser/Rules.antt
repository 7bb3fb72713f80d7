-- ===== src/Parser/Rules.antt =====
-- A proof rule for the parser's chains of fallible steps.
use tangor.Base.{◌≡◌, refl, subst, Bool, true, false, if◌then◌else◌, List, [], ◌∷◌, arith}
use tangor.Json.{JsonApi}
use tangor.Parser.{Failure, Result, ok, err, ◌>>=◌, Parsing, for_each}

-- What holds of a result, if there is one.
pub data Ensures {ℓ} {A : Type ℓ} (P : A → Type 0) : Result A → Type ℓ where
  returns : {a : A} → P a → Ensures P (ok a)
  fails : {e : Failure} → Ensures P (err e)

pub Ensures-bind {ℓ κ} :
    {A : Type ℓ} {B : Type κ} {P : B → Type 0} (m : Result A) {f : A → Result B}
    → ((a : A) → m ≡ ok a → Ensures P (f a))
    → Ensures P (m >>= f)
Ensures-bind (ok a) h = h a refl
Ensures-bind (err e) h = fails

pub Ensures-if {ℓ} :
    {A : Type ℓ} {P : A → Type 0} (b : Bool) {m n : Result A}
    → (b ≡ true → Ensures P m)
    → (b ≡ false → Ensures P n)
    → Ensures P (if b then m else n)
Ensures-if true h k = h refl
Ensures-if false h k = k refl

pub Ensures-ok {ℓ} :
    {A : Type ℓ} {P : A → Type 0} {m : Result A} (a : A) → Ensures P m → m ≡ ok a → P a
Ensures-ok {P = P} a (returns p) e = subst P (ground arith) p
Ensures-ok a fails e = absurd (ground arith)

-- An invariant of the body of a loop holds after the loop.
pub for_each_invariant :
    (j : JsonApi) (P : Parsing → Type 0) (body : j.Json → Parsing → Result Parsing)
    → ((v : j.Json) (p : Parsing) → P p → Ensures P (body v p))
    → (vs : List j.Json) (p : Parsing) → P p
    → Ensures P (for_each j body vs p)
unfolding for_each
for_each_invariant j P body keeps [] p h = returns h
for_each_invariant j P body keeps (v ∷ vs) p h =
    Ensures-bind (body v p)
      λ p' e. for_each_invariant j P body keeps vs p' (Ensures-ok p' (keeps v p h) e)
