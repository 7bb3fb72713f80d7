-- ===== src/Iyokan/Memory/Insertion.antt =====
-- The values after `starpu_task_insert` in src/iyokan-starpu-codelets.cpp.
use tangor.Base.{
  pos, ℤ, ℕ, ◌≡◌, ◌≢◌, refl, sym, ap, ◌∙◌, true, List, [], ◌∷◌, ◌++◌, map, some, Option-cases, inl,
  inr, arith, get_elem?, length,
}
use tangor.StarpuApi.{Access, starpu_w, starpu_r, starpu_rw, StarpuApi}
use tangor.StarpuApi.Memory.{Place, Memory, MemoryLaws, Inserts, reads, OnlyReads}
use tangor.Iyokan.{Backend, TaskState, is_zero}
use tangor.Iyokan.Rules.{Ends, ends, stops, Ends-if}
use tangor.Iyokan.Tasks.{insert_task}
use tangor.Iyokan.Memory.{handle_of, Linked, value_in, registered, value_at, IsLinked}
use tangor.Iyokan.Memory.Registry.{Linked-injective, unregistered, Throws}
use tangor.Iyokan.Memory.Operands.{Bound, nothing, bound}

pub is_zero-eq : (z : ℤ) → is_zero z ≡ true → z ≡ pos 0
is_zero-eq z e = ground arith

-- The state of the task, with its output.
abbrev pub HasOutput : ℕ → ℕ → List TaskState → Type 0
HasOutput task h states = (x : TaskState) × (get_elem? states task ≡ some x) × (x.output ≡ h)

get_elem?-snoc :
    (states : List TaskState) (x : TaskState)
    → get_elem? (states ++ x ∷ []) (length states) ≡ some x
get_elem?-snoc [] x = refl
get_elem?-snoc (s ∷ states) x = get_elem?-snoc states x

module _ {api : StarpuApi} (y : Memory api) where
  -- After a submission: `p` has what the codelet computes from the sources, no other value changed,
  -- and the new task has `p` for its output.
  pub record Submitted (codelet : api.Codelet) (p : Place) (sources : List Place) (b : Backend api)
      (task : ℕ) (s : Backend api) : Type 0 where
    pub linked : IsLinked y s
    pub computes : y.Computes codelet (map (value_at y b) sources) (value_at y s p)
    pub others : (q : Place) → q ≢ p → value_at y s q ≡ value_at y b q
    pub output : ℕ
    pub is_output : registered y s p ≡ some output
    pub has_output : HasOutput task output s.states
    pub same_capture : s.capture_active ≡ b.capture_active
    pub same_once : s.starpu_init_once ≡ b.starpu_init_once

  pub Linked-same :
      {m n : api.Machine} {vs ws : List (ℕ × ℕ)}
      → Linked y m vs ws
      → y.Up n
      → ((h : ℕ) → y.stands_for n h ≡ y.stands_for m h)
      → Linked y n vs ws
  Linked-same l up same = record {
    up = up;
    stands = λ p h at. same h ∙ l.stands p h at;
    recorded = λ p h at. l.recorded p h (sym (same h) ∙ at);
  }

  Computes-along :
      (codelet : api.Codelet) {us vs : List y.Value} {v w : y.Value}
      → us ≡ vs
      → v ≡ w
      → y.Computes codelet us v
      → y.Computes codelet vs w
  Computes-along codelet e e' c = rw (← e, ← e') c

  pub value_in-registered :
      (m : api.Machine) (vs ws : List (ℕ × ℕ)) (p : Place) (h : ℕ)
      → handle_of vs ws p ≡ some h
      → value_in y m (handle_of vs ws p) p ≡ y.content m h
  unfolding value_in
  value_in-registered m vs ws p h found = rw found refl

  value_at-registered :
      (s : Backend api) (p : Place) (h : ℕ)
      → registered y s p ≡ some h
      → value_at y s p ≡ y.content s.machine h
  value_at-registered s p h found = value_in-registered s.machine _ _ p h found

  Bound-reads :
      (s : Backend api) (operands : List (Access × Place)) (accesses : List (Access × ℕ))
      → Bound y s operands accesses
      → map (y.content s.machine) (reads accesses) ≡ map (value_at y s) (reads operands)
  Bound-reads s _ _ nothing = refl
  Bound-reads s _ _ (bound {mode = starpu_w} found rest) = Bound-reads s _ _ rest
  Bound-reads s _ _ (bound {mode = starpu_r} {p = p} {h = h} found rest) =
      rw (value_at-registered s p h found, Bound-reads s _ _ rest) refl
  Bound-reads s _ _ (bound {mode = starpu_rw} {p = p} {h = h} found rest) =
      rw (value_at-registered s p h found, Bound-reads s _ _ rest) refl

  Bound-OnlyReads :
      (s : Backend api) (p : Place) (h : ℕ) (operands : List (Access × Place))
      (accesses : List (Access × ℕ))
      → IsLinked y s
      → registered y s p ≡ some h
      → Bound y s operands accesses
      → OnlyReads p operands
      → OnlyReads h accesses
  Bound-OnlyReads s p h _ _ l at nothing only = tt
  Bound-OnlyReads s p h _ _ l at (bound {mode = starpu_r} {p = q} {h = k} found rest) (ne, only) = (
    λ e. ne (Linked-injective y q p k l found (at ∙ ap some (sym e))),
    Bound-OnlyReads s p h _ _ l at rest only,
  )
  Bound-OnlyReads s p h _ _ l at (bound {mode = starpu_w} found rest) only = elim only [ ]
  Bound-OnlyReads s p h _ _ l at (bound {mode = starpu_rw} found rest) only = elim only [ ]

  -- The values of other places.
  value_in-others :
      {m n : api.Machine} {vs ws : List (ℕ × ℕ)} (codelet : api.Codelet) (p : Place) (h : ℕ)
      (inputs : List ℕ) (q : Place)
      → Linked y m vs ws
      → handle_of vs ws p ≡ some h
      → Inserts y codelet h inputs m n
      → q ≢ p
      → value_in y n (handle_of vs ws q) q ≡ value_in y m (handle_of vs ws q) q
  unfolding value_in
  value_in-others {vs = vs} {ws = ws} codelet p h inputs q l at i ne =
      elim (Option-cases (handle_of vs ws q)) [
        | inl absent ↦ rw absent (i.same_host q (unregistered y q l absent))
        | inr (k, found) ↦
            rw found (
              i.same_contents k (λ e. ne (Linked-injective y q p k l found (at ∙ ap some (sym e)))))
      ]

  module _ (laws : MemoryLaws y) where
    pub insert_task-Submitted :
        (codelet : api.Codelet) (mode : Access) (p : Place) (operands : List (Access × Place))
        (accesses : List (Access × ℕ)) (b : Backend api)
        → IsLinked y b
        → Bound y b ((mode, p) ∷ operands) accesses
        → OnlyReads p operands
        → Ends
            (Submitted codelet p (reads ((mode, p) ∷ operands)) b)
            (Throws y)
            (insert_task api codelet accesses b)
    unfolding insert_task
    insert_task-Submitted codelet mode p operands _ b l (bound {h = h} {accesses = rest} at others)
          only =
        Ends-if (is_zero (api.task_insert codelet ((mode, h) ∷ rest) (length b.states) b.machine).0)
          (λ e.
            let i =
              laws.task_inserts codelet mode h rest (length b.states) b.machine l.up
                (Bound-OnlyReads b p h operands rest l at others only) (is_zero-eq _ e) in
            ends (record {
              linked = Linked-same l i.up i.same_handles;
              computes =
                  Computes-along codelet
                    (Bound-reads b ((mode, p) ∷ operands) ((mode, h) ∷ rest) (bound at others))
                    (sym (
                      value_in-registered _ b.persistent_handles b.persistent_variable_handles p h
                        at))
                    i.computes;
              others = λ q ne. value_in-others codelet p h _ q l at i ne;
              output = h;
              is_output = at;
              has_output = (_, get_elem?-snoc b.states _, refl);
              same_capture = refl;
              same_once = refl;
            }))
          (λ _. stops tt)
