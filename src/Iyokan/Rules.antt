-- ===== src/Iyokan/Rules.antt =====
-- Proof rules for the steps of the runtime in src/iyokan-starpu-codelets.cpp.
use tangor.Base.{◌≡◌, refl, subst, Bool, true, false, if◌then◌else◌}
use tangor.Iyokan.{Thrown, Outcome, value, throws, then_do}

-- What holds after a step that has a value, and after one that throws.
pub data Ends {ℓ} {S : Type 0} {A : Type ℓ} (P : A → S → Type 0) (Q : S → Type 0)
    : Outcome A × S → Type ℓ where
  ends : {a : A} {s : S} → P a s → Ends P Q (value a, s)
  stops : {e : Thrown} {s : S} → Q s → Ends P Q (throws e, s)

pub Ends-then_do {ℓ κ} :
    {S : Type 0} {A : Type ℓ} {B : Type κ} {P : A → S → Type 0} {P' : B → S → Type 0}
    {Q : S → Type 0} {m : Outcome A × S} {f : A → S → Outcome B × S}
    → Ends P Q m
    → ((a : A) (s : S) → P a s → Ends P' Q (f a s))
    → Ends P' Q (then_do m f)
Ends-then_do (ends p) h = h _ _ p
Ends-then_do (stops q) h = stops q

pub Ends-mono {ℓ} :
    {S : Type 0} {A : Type ℓ} {P P' : A → S → Type 0} {Q : S → Type 0} {m : Outcome A × S}
    → Ends P Q m
    → ((a : A) (s : S) → P a s → P' a s)
    → Ends P' Q m
Ends-mono (ends p) h = ends (h _ _ p)
Ends-mono (stops q) h = stops q

pub Ends-map {ℓ} :
    {S : Type 0} {A : Type ℓ} {P P' : A → S → Type 0} {Q Q' : S → Type 0} {m : Outcome A × S}
    → Ends P Q m
    → ((a : A) (s : S) → P a s → P' a s)
    → ((s : S) → Q s → Q' s)
    → Ends P' Q' m
Ends-map (ends p) h k = ends (h _ _ p)
Ends-map (stops q) h k = stops (k _ q)

pub Ends-both {ℓ} :
    {S : Type 0} {A : Type ℓ} {P P' : A → S → Type 0} {Q Q' : S → Type 0} {m : Outcome A × S}
    → Ends P Q m
    → Ends P' Q' m
    → Ends (λ a s. P a s × P' a s) (λ s. Q s × Q' s) m
Ends-both (ends p) (ends p') = ends (p, p')
Ends-both (stops q) (stops q') = stops (q, q')

-- What holds of the value of a step that is known.
pub Ends-given {ℓ} :
    {S : Type 0} {A : Type ℓ} {P P' : A → S → Type 0} {Q : S → Type 0} {m : Outcome A × S}
    → Ends P Q m
    → ((a : A) (s : S) → m ≡ (value a, s) → P' a s)
    → Ends (λ a s. P a s × P' a s) Q m
Ends-given (ends p) h = ends (p, h _ _ refl)
Ends-given (stops q) h = stops q

pub Ends-if {ℓ} :
    {S : Type 0} {A : Type ℓ} {P : A → S → Type 0} {Q : S → Type 0} (b : Bool) {m n : Outcome A × S}
    → (b ≡ true → Ends P Q m)
    → (b ≡ false → Ends P Q n)
    → Ends P Q (if b then m else n)
Ends-if true h k = h refl
Ends-if false h k = k refl

abbrev HoldsAfter {ℓ} :
    {S : Type 0} {A : Type ℓ} → (A → S → Type 0) → (S → Type 0) → Outcome A × S → Type 0
HoldsAfter P Q (value a, s) = P a s
HoldsAfter P Q (throws e, s) = Q s

Ends-HoldsAfter {ℓ} :
    {S : Type 0} {A : Type ℓ} {P : A → S → Type 0} {Q : S → Type 0} {m : Outcome A × S}
    → Ends P Q m
    → HoldsAfter P Q m
Ends-HoldsAfter (ends p) = p
Ends-HoldsAfter (stops q) = q

pub Ends-value {ℓ} :
    {S : Type 0} {A : Type ℓ} {P : A → S → Type 0} {Q : S → Type 0} {m : Outcome A × S} (a : A)
    (s : S)
    → Ends P Q m
    → m ≡ (value a, s)
    → P a s
Ends-value {P = P} {Q = Q} a s h e = subst (HoldsAfter P Q) e (Ends-HoldsAfter h)
