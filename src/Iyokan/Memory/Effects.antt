-- ===== src/Iyokan/Memory/Effects.antt =====
-- The entry points of src/iyokan-starpu-codelets.cpp, from the call to its return.
use mathlib.Core.Option.{some-injective}
use tangor.Base.{
  ℕ, ◌≡◌, refl, sym, subst, ◌∙◌, true, false, not, Option, none, some, Holds-if, Holds-option,
}
use tangor.StarpuApi.{StarpuApi}
use tangor.StarpuApi.Memory.{Place, Memory, MemoryLaws}
use tangor.Iyokan.{Outcome, value, throws, Backend, capture_task}
use tangor.Iyokan.Rules.{Ends, ends, stops, Ends-mono, Ends-value}
use tangor.Iyokan.Tasks.{finish_submission, wait_for_task, synchronize_iyokan_starpu_capture}
use tangor.Iyokan.Calls.{Call, submission, run_call}
use tangor.Iyokan.Memory.{IsStarted, value_at, registered, IsLinked}
use tangor.Iyokan.Memory.Registry.{Throws}
use tangor.Iyokan.Memory.Insertion.{HasOutput}
use tangor.Iyokan.Memory.Waited.{Fetched, FetchedIf, wait_for_task-FetchedIf}
use tangor.Iyokan.Memory.Assignments.{output_of, Admissible, Yields, Assigns}
use tangor.Iyokan.Memory.Entries.{Performs, submission-Performs}

module _ {api : StarpuApi} (y : Memory api)
    (IsCmux : y.Value → y.Value → y.Value → y.Value → Type 0) where
  -- The captured task has the place for its output.
  abbrev pub Captured : Place → Backend api → Type 0
  Captured p s =
      (task h : ℕ) × (s.captured_task ≡ some task)
      × (registered y s p ≡ some h)
      × HasOutput task h s.states

  -- A call that returned: the runtime goes on, the values are those of the assignment, and outside of a
  -- capture the program finds the output in main memory.
  pub record Carries (call : Call api) (b s : Backend api) : Type 0 where
    pub started : IsStarted s
    pub linked : IsLinked y s
    pub same_capture : s.capture_active ≡ b.capture_active
    pub assigns : Assigns y IsCmux call (value_at y b) (value_at y s)
    pub in_memory :
        b.capture_active ≡ false → y.host s.machine (output_of call) ≡ value_at y s (output_of call)
    pub in_capture : b.capture_active ≡ true → Captured (output_of call) s

  -- If the call comes back.
  abbrev CarriesIf : Call api → Backend api → Option (Outcome (Unit {0}) × Backend api) → Type 0
  CarriesIf call b none = Unit {0}
  CarriesIf call b (some m) = Ends (λ _ s. Carries call b s) (Throws y) m

  captured-Carries :
      (call : Call api) (task : ℕ) (b u : Backend api)
      → IsStarted b
      → Performs y IsCmux call b task u
      → u.capture_active ≡ true
      → Carries call b (capture_task api task u)
  unfolding capture_task
  captured-Carries call task b u on (codelet, sources, m, yields) active =
      Holds-if (Carries call b) (not u.capture_active) u _
        (λ off. absurd (let f : not true ≡ true = rw active at off in cc))
        λ _. record {
          started = m.same_once ∙ on;
          linked = m.linked;
          same_capture = m.same_capture;
          assigns = record { yields = yields; others = m.others };
          in_memory = λ e. absurd (let f : true ≡ false = sym active ∙ (m.same_capture ∙ e) in cc);
          in_capture = λ _. (task, m.output, refl, m.is_output, m.has_output);
        }

  waited-CarriesIf :
      (laws : MemoryLaws y) (call : Call api) (task : ℕ) (b u : Backend api)
      (o : Option (Outcome (Unit {0}) × Backend api))
      → IsStarted b
      → Performs y IsCmux call b task u
      → u.capture_active ≡ false
      → FetchedIf y laws (output_of call) u o
      → CarriesIf call b o
  waited-CarriesIf laws call task b u none on p off f = tt
  waited-CarriesIf laws call task b u (some m) on (codelet, sources, sub, yields) off f =
      Ends-mono f λ r s (w, fetch). record {
        started = w.same_once ∙ (sub.same_once ∙ on);
        linked = w.linked;
        same_capture = w.same_capture ∙ sub.same_capture;
        assigns = record {
          yields =
              subst (Yields y IsCmux call (value_at y b)) (sym (w.same_values (output_of call)))
                yields;
          others = λ q ne. w.same_values q ∙ sub.others q ne;
        };
        in_memory = λ _. fetch;
        in_capture = λ e. absurd (let f : false ≡ true = sym off ∙ (sub.same_capture ∙ e) in cc);
      }

  finish_submission-CarriesIf :
      (laws : MemoryLaws y) (fuel : ℕ) (call : Call api) (b : Backend api)
      (m : Outcome ℕ × Backend api)
      → IsStarted b
      → Ends (Performs y IsCmux call b) (Throws y) m
      → CarriesIf call b (finish_submission api fuel m)
  unfolding finish_submission
  finish_submission-CarriesIf laws fuel call b (throws e, u) on (stops q) = stops tt
  finish_submission-CarriesIf laws fuel call b (value task, u) on (ends p) =
      let (codelet, sources, sub, yields) = p in
      Holds-if (CarriesIf call b) u.capture_active _ _
        (λ active. ends (captured-Carries call task b u on p active))
        λ off. waited-CarriesIf laws call task b u (wait_for_task api fuel task u) on p off (
          wait_for_task-FetchedIf y laws fuel task sub.output (output_of call) u sub.linked
            sub.is_output sub.has_output)

  run_call-CarriesIf :
      (laws : MemoryLaws y) (fuel : ℕ) (call : Call api) (b : Backend api)
      → IsStarted b
      → IsLinked y b
      → Admissible y IsCmux call
      → CarriesIf call b (run_call api fuel call b)
  unfolding run_call
  run_call-CarriesIf laws fuel call b on l admissible =
      finish_submission-CarriesIf laws fuel call b (submission api call b) on
        (submission-Performs y IsCmux laws call b on l admissible)

  -- Under what StarPU documents, a gate, RAM or ROM call of a started runtime whose registries agree
  -- with StarPU, if it comes back without an exception, is carried out as an assignment: its output
  -- gets a value that its codelet computes from the values of its inputs before the call, or the
  -- CMUX of them for every alias of the output with one data input, and no other value changes; the
  -- registries still agree; outside of a capture the program finds the output in main memory, and in
  -- a capture the captured task has it for its output. The output of a gate is none of its inputs,
  -- and that of a CMUX, whose codelets compute it, not both of its data inputs.
  pub run_call-Carries :
      (laws : MemoryLaws y) (fuel : ℕ) (call : Call api) (b s : Backend api)
      → IsStarted b
      → IsLinked y b
      → Admissible y IsCmux call
      → run_call api fuel call b ≡ some (value tt, s)
      → Carries call b s
  run_call-Carries laws fuel call b s on l admissible e =
      Ends-value tt s
        (subst (CarriesIf call b) e (run_call-CarriesIf laws fuel call b on l admissible)) refl

  -- `synchronizeIyokanStarpuCapture`, if it comes back.
  pub synchronize-Fetched :
      (laws : MemoryLaws y) (fuel : ℕ) (p : Place) (b s : Backend api)
      → IsLinked y b
      → b.capture_active ≡ true
      → Captured p b
      → synchronize_iyokan_starpu_capture api fuel b ≡ some (value tt, s)
      → Fetched y laws p b tt s
  unfolding synchronize_iyokan_starpu_capture
  synchronize-Fetched laws fuel p b s l active (task, h, is_task, at, o) e =
      Ends-value tt s
        (subst (FetchedIf y laws p b) e (
          Holds-if (FetchedIf y laws p b) (not b.capture_active) _ _ (λ _. stops tt)
            λ off.
              Holds-option (FetchedIf y laws p b) b.captured_task _ _
                (λ none_yet. absurd (let f : none ≡ some task = sym none_yet ∙ is_task in cc))
                λ k found. wait_for_task-FetchedIf y laws fuel k h p b l at (
                  subst (λ (n : ℕ). HasOutput n h b.states)
                    (some-injective _ _ (sym is_task ∙ found)) o)))
        refl
