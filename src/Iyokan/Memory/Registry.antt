-- ===== src/Iyokan/Memory/Registry.antt =====
-- The registration of values in src/iyokan-starpu-codelets.cpp changes no value.
use tangor.Base.{
  Holds-option, ℕ, ◌≡◌, ◌≢◌, refl, sym, ap, subst, ◌∙◌, ◌==◌, ==→eq, ==_refl, List, ◌∷◌, none, some,
  Option-cases, Bool-cases, inl, inr,
}
use mathlib.Core.Option.{some-injective}
use native.Mathlib.Decide.{ℕ_discrete}
use tangor.StarpuApi.{StarpuApi}
use tangor.StarpuApi.Memory.{Place, tlwe, variable, Memory, Registers, MemoryLaws}
use tangor.Iyokan.{find_handle, Backend, persistent_handle_for, persistent_variable_handle_for}
use tangor.Iyokan.Rules.{Ends, ends}
use tangor.Iyokan.Memory.{handle_of, Linked, value_in, registered, IsLinked, Extends}

Place-discrete : Discrete Place
Place-discrete = hlevel ℕ_discrete

module _ {api : StarpuApi} (y : Memory api) where
  -- Distinct places have distinct handles.
  pub Linked-injective :
      {m : api.Machine} {vectors variables : List (ℕ × ℕ)} (p q : Place) (h : ℕ)
      → Linked y m vectors variables
      → handle_of vectors variables p ≡ some h
      → handle_of vectors variables q ≡ some h
      → p ≡ q
  Linked-injective p q h l at at' = some-injective _ _ (sym (l.stands p h at) ∙ l.stands q h at')

  pub Extends-refl : (b : Backend api) → IsLinked y b → Extends y b b
  Extends-refl b l = record {
    linked = l;
    same_values = λ p. refl;
    keeps = λ p h e. e;
    same_states = refl;
    same_capture = refl;
    same_once = refl;
  }

  pub Extends-trans : {a b c : Backend api} → Extends y a b → Extends y b c → Extends y a c
  Extends-trans e f = record {
    linked = f.linked;
    same_values = λ p. f.same_values p ∙ e.same_values p;
    keeps = λ p h found. f.keeps p h (e.keeps p h found);
    same_states = f.same_states ∙ e.same_states;
    same_capture = f.same_capture ∙ e.same_capture;
    same_once = f.same_once ∙ e.same_once;
  }

  -- The registries with a new handle for `p`.
  abbrev IsAdded : Place → ℕ → List (ℕ × ℕ) → List (ℕ × ℕ) → List (ℕ × ℕ) → List (ℕ × ℕ) → Type 0
  IsAdded p h vectors variables vectors' variables' =
      (handle_of vectors' variables' p ≡ some h)
      × ((q : Place) → q ≢ p → handle_of vectors' variables' q ≡ handle_of vectors variables q)

  pub unregistered :
      {m : api.Machine} {vectors variables : List (ℕ × ℕ)} (p : Place)
      → Linked y m vectors variables
      → handle_of vectors variables p ≡ none
      → (h : ℕ) → y.stands_for m h ≢ some p
  unregistered p l absent h at = let found = l.recorded p h at in cc

  module _ {m n : api.Machine} {vs ws : List (ℕ × ℕ)} (p : Place) (h : ℕ) (l : Linked y m vs ws)
      (absent : handle_of vs ws p ≡ none) (r : Registers y p m h n) where
    apart : (k : ℕ) (q : Place) → y.stands_for m k ≡ some q → k ≢ h
    apart k q at e = let new = r.is_new in cc

    other-place : (q : Place) (k : ℕ) → y.stands_for m k ≡ some q → q ≢ p
    other-place q k at e = unregistered p l absent k (at ∙ ap some e)

    module _ (vs' ws' : List (ℕ × ℕ)) (added : IsAdded p h vs ws vs' ws') where
      Linked-added : Linked y n vs' ws'
      Linked-added = record {
        up = r.up;
        stands = λ q k at. elim (Place-discrete q p) [
          | yes e ↦
              let at' : some h ≡ some k =
                sym added.0 ∙ subst (λ (x : Place). handle_of vs' ws' x ≡ some k) e at in
              rw (← some-injective _ _ at', e) r.stands
          | no ne ↦
              let old = l.stands q k (sym (added.1 q ne) ∙ at) in
              r.same_handles k (apart k q old) ∙ old
        ];
        recorded = λ q k at. elim (ℕ_discrete k h) [
          | yes e ↦
              let here : some p ≡ some q = sym r.stands ∙ rw (← e) at in
              rw (← some-injective _ _ here, e) added.0
          | no ne ↦
              let old = sym (r.same_handles k ne) ∙ at in
              added.1 q (other-place q k old) ∙ l.recorded q k old
        ];
      }

      value_in-added :
          (q : Place) → value_in y n (handle_of vs' ws' q) q ≡ value_in y m (handle_of vs ws q) q
      unfolding value_in
      value_in-added q = elim (Place-discrete q p) [
        | yes e ↦ rw (e, added.0, absent) r.holds
        | no ne ↦ elim (Option-cases (handle_of vs ws q)) [
          | inl none_yet ↦ rw (added.1 q ne, none_yet) (r.same_host q (unregistered q l none_yet))
          | inr (k, found) ↦
              rw (added.1 q ne, found) (r.same_contents k (apart k q (l.stands q k found)))
        ]
      ]

      keeps-added : (q : Place) (k : ℕ) → handle_of vs ws q ≡ some k → handle_of vs' ws' q ≡ some k
      keeps-added q k found = elim (Place-discrete q p) [
        | yes e ↦ let at : handle_of vs ws q ≡ none = rw e absent in cc
        | no ne ↦ added.1 q ne ∙ found
      ]

  -- What a registration gives.
  abbrev pub Gets : Backend api → Place → ℕ → Backend api → Type 0
  Gets b p h s = Extends y b s × (registered y s p ≡ some h)

  abbrev pub Throws : Backend api → Type 0
  Throws s = Unit {0}

  vector-IsAdded : (a h : ℕ) (vs ws : List (ℕ × ℕ)) → IsAdded (tlwe a) h vs ws ((a, h) ∷ vs) ws
  unfolding handle_of find_handle
  vector-IsAdded a h vs ws = (rw (==_refl a) refl, λ q. vector_other q)
    where
      vector_other : (q : Place) → q ≢ tlwe a → handle_of ((a, h) ∷ vs) ws q ≡ handle_of vs ws q
      vector_other (tlwe b) ne = elim (Bool-cases (a == b)) [
        | inl e ↦ absurd (ne (ap tlwe (sym (==→eq a b e))))
        | inr e ↦ rw e refl
      ]
      vector_other (variable b) ne = refl

  variable-IsAdded :
      (a h : ℕ) (vs ws : List (ℕ × ℕ)) → IsAdded (variable a) h vs ws vs ((a, h) ∷ ws)
  unfolding handle_of find_handle
  variable-IsAdded a h vs ws = (rw (==_refl a) refl, λ q. variable_other q)
    where
      variable_other :
          (q : Place) → q ≢ variable a → handle_of vs ((a, h) ∷ ws) q ≡ handle_of vs ws q
      variable_other (variable b) ne = elim (Bool-cases (a == b)) [
        | inl e ↦ absurd (ne (ap variable (sym (==→eq a b e))))
        | inr e ↦ rw e refl
      ]
      variable_other (tlwe b) ne = refl

  module _ (laws : MemoryLaws y) where
    pub persistent_handle_for-Gets :
        (a : ℕ) (b : Backend api)
        → IsLinked y b
        → Ends (Gets b (tlwe a)) Throws (persistent_handle_for api a b)
    unfolding persistent_handle_for handle_of
    persistent_handle_for-Gets a b l =
        Holds-option (Ends (Gets b (tlwe a)) Throws) (find_handle a b.persistent_handles) _ _
          (λ e.
            let h = (api.vector_data_register a b.machine).0 in
            let r = laws.vector_registers a b.machine l.up (unregistered (tlwe a) l e) in
            let vs = (a, h) ∷ b.persistent_handles in
            let ws = b.persistent_variable_handles in
            let added = vector-IsAdded a h b.persistent_handles ws in
            ends (
              record {
                linked = Linked-added (tlwe a) h l e r vs ws added;
                same_values = value_in-added (tlwe a) h l e r vs ws added;
                keeps = keeps-added (tlwe a) h l e r vs ws added;
                same_states = refl;
                same_capture = refl;
                same_once = refl;
              },
              added.0,
            ))
          λ h e. ends (Extends-refl b l, e)

    pub persistent_variable_handle_for-Gets :
        (a : ℕ) (b : Backend api)
        → IsLinked y b
        → Ends (Gets b (variable a)) Throws (persistent_variable_handle_for api a b)
    unfolding persistent_variable_handle_for handle_of
    persistent_variable_handle_for-Gets a b l =
        Holds-option (Ends (Gets b (variable a)) Throws)
          (find_handle a b.persistent_variable_handles) _ _
          (λ e.
            let h = (api.variable_data_register a b.machine).0 in
            let r = laws.variable_registers a b.machine l.up (unregistered (variable a) l e) in
            let vs = b.persistent_handles in
            let ws = (a, h) ∷ b.persistent_variable_handles in
            let added = variable-IsAdded a h vs b.persistent_variable_handles in
            ends (
              record {
                linked = Linked-added (variable a) h l e r vs ws added;
                same_values = value_in-added (variable a) h l e r vs ws added;
                keeps = keeps-added (variable a) h l e r vs ws added;
                same_states = refl;
                same_capture = refl;
                same_once = refl;
              },
              added.0,
            ))
          λ h e. ends (Extends-refl b l, e)
