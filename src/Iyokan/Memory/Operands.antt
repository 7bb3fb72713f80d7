-- ===== src/Iyokan/Memory/Operands.antt =====
-- The operands of a task of src/iyokan-starpu-codelets.cpp, and the handles that it is submitted with.
use tangor.Base.{ℕ, ◌≡◌, List, [], ◌∷◌, ◌++◌, map, some}
use tangor.StarpuApi.{Access, starpu_w, starpu_r, StarpuApi}
use tangor.StarpuApi.Memory.{Place, tlwe, variable, Memory, MemoryLaws}
use tangor.Iyokan.{Backend, persistent_variable_handle_for}
use tangor.Iyokan.Rules.{Ends, ends, Ends-then_do, Ends-mono}
use tangor.Iyokan.Tasks.{handles_for, variable_handles_for, write_first}
use tangor.Iyokan.Memory.{registered, IsLinked, Extends}
use tangor.Iyokan.Memory.Registry.{
  Extends-refl, Extends-trans, Gets, Throws, persistent_handle_for-Gets,
  persistent_variable_handle_for-Gets,
}

-- The first operand is written, and the others are read.
abbrev pub written : Place → List Place → List (Access × Place)
written p ps = (starpu_w, p) ∷ map (λ q. (starpu_r, q)) ps

abbrev pub variables : List (Access × ℕ) → List (Access × Place)
variables = map λ (x : Access × ℕ). (x.0, variable x.1)

module _ {api : StarpuApi} (y : Memory api) where
  abbrev pub AllRegistered : Backend api → List Place → List ℕ → Type 0
  AllRegistered s [] [] = Unit {0}
  AllRegistered s (p ∷ ps) (h ∷ hs) = (registered y s p ≡ some h) × AllRegistered s ps hs
  AllRegistered s _ _ = ⊥

  -- The accesses are those of the operands, by their handles.
  pub data Bound (s : Backend api) : List (Access × Place) → List (Access × ℕ) → Type 0 where
    nothing : Bound s [] []
    bound :
        {mode : Access} {p : Place} {h : ℕ} {operands : List (Access × Place)}
        {accesses : List (Access × ℕ)}
        → registered y s p ≡ some h
        → Bound s operands accesses
        → Bound s ((mode, p) ∷ operands) ((mode, h) ∷ accesses)

  AllRegistered-Extends :
      {b s : Backend api} (ps : List Place) (hs : List ℕ)
      → Extends y b s
      → AllRegistered b ps hs
      → AllRegistered s ps hs
  AllRegistered-Extends [] [] e a = tt
  AllRegistered-Extends (p ∷ ps) (h ∷ hs) e (found, a) =
      (e.keeps p h found, AllRegistered-Extends ps hs e a)
  AllRegistered-Extends _ _ e a = elim a [ ]

  -- What is registered stays so.
  abbrev pub Keeps : Backend api → Backend api → Type 0
  Keeps b s = (p : Place) (h : ℕ) → registered y b p ≡ some h → registered y s p ≡ some h

  pub Bound-Keeps :
      {b s : Backend api} {operands : List (Access × Place)} {accesses : List (Access × ℕ)}
      → Keeps b s
      → Bound b operands accesses
      → Bound s operands accesses
  Bound-Keeps keep nothing = nothing
  Bound-Keeps keep (bound {p = p} {h = h} found rest) =
      bound (keep p h found) (Bound-Keeps keep rest)

  pub Bound-snoc :
      {s : Backend api} {operands : List (Access × Place)} {accesses : List (Access × ℕ)}
      (mode : Access) (p : Place) (h : ℕ)
      → registered y s p ≡ some h
      → Bound s operands accesses
      → Bound s (operands ++ (mode, p) ∷ []) (accesses ++ (mode, h) ∷ [])
  Bound-snoc mode p h at nothing = bound at nothing
  Bound-snoc mode p h at (bound found rest) = bound found (Bound-snoc mode p h at rest)

  Bound-read :
      (s : Backend api) (ps : List Place) (hs : List ℕ)
      → AllRegistered s ps hs
      → Bound s (map (λ q. (starpu_r, q)) ps) (map (λ h. (starpu_r, h)) hs)
  Bound-read s [] [] a = nothing
  Bound-read s (p ∷ ps) (h ∷ hs) (found, a) = bound found (Bound-read s ps hs a)
  Bound-read s _ _ a = elim a [ ]

  pub Bound-write_first :
      (s : Backend api) (p : Place) (ps : List Place) (hs : List ℕ)
      → AllRegistered s (p ∷ ps) hs
      → Bound s (written p ps) (write_first api hs)
  Bound-write_first s p ps (h ∷ hs) (found, a) = bound found (Bound-read s ps hs a)
  Bound-write_first s p ps [] a = elim a [ ]

  module _ (laws : MemoryLaws y) where
    pub handles_for-AllRegistered :
        (vs : List ℕ) (b : Backend api)
        → IsLinked y b
        → Ends
            (λ hs s. Extends y b s × AllRegistered s (map tlwe vs) hs)
            (Throws y)
            (handles_for api vs b)
    unfolding handles_for
    handles_for-AllRegistered [] b l = ends (Extends-refl y b l, tt)
    handles_for-AllRegistered (v ∷ vs) b l =
        Ends-then_do (persistent_handle_for-Gets y laws v b l) λ h s (e, found).
          Ends-then_do (handles_for-AllRegistered vs s e.linked)
            λ hs s' (e', founds). ends (Extends-trans y e e', (e'.keeps (tlwe v) h found, founds))

    pub variable_handles_for-Bound :
        (vs : List (Access × ℕ)) (b : Backend api)
        → IsLinked y b
        → Ends
            (λ hs s. Extends y b s × Bound s (variables vs) hs)
            (Throws y)
            (variable_handles_for api vs b)
    unfolding variable_handles_for
    variable_handles_for-Bound [] b l = ends (Extends-refl y b l, nothing)
    variable_handles_for-Bound ((mode, v) ∷ vs) b l =
        Ends-then_do (persistent_variable_handle_for-Gets y laws v b l) λ h s (e, found).
          Ends-then_do (variable_handles_for-Bound vs s e.linked) λ hs s' (e', rest).
            ends (Extends-trans y e e', bound (e'.keeps (variable v) h found) rest)

    -- The operands of MUXwoSE: a variable, then vectors.
    pub mux_wo_se-AllRegistered :
        (output : ℕ) (inputs : List ℕ) (b : Backend api)
        → IsLinked y b
        → Ends
            (λ o s.
              Gets y b (variable output) o s
              × Ends
                  (λ hs s'.
                    Extends y b s' × AllRegistered s' (variable output ∷ map tlwe inputs) (o ∷ hs))
                  (Throws y)
                  (handles_for api inputs s))
            (Throws y)
            (persistent_variable_handle_for api output b)
    mux_wo_se-AllRegistered output inputs b l =
        Ends-mono (persistent_variable_handle_for-Gets y laws output b l) λ o s (e, found). (
          (e, found),
          Ends-mono (handles_for-AllRegistered inputs s e.linked) λ hs s' (e', founds).
              (Extends-trans y e e', (e'.keeps (variable output) o found, founds)),
        )
