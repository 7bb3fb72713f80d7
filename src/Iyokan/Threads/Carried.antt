-- ===== src/Iyokan/Threads/Carried.antt =====
-- What the threads of src/iyokan-starpu-codelets.cpp rely on between their steps.
use tangor.Base.{
  ℕ, zero, suc, ◌≡◌, refl, sym, subst, List, [], ◌∷◌, ◌++◌, some, length, get_elem?, not,
  Holds-option,
}
use tangor.StarpuApi.{Access, starpu_r, StarpuApi}
use tangor.StarpuApi.Memory.{Place, Memory}
use tangor.Iyokan.{Backend, TaskState, is_zero}
use tangor.Iyokan.Rules.{Ends, ends, stops, Ends-if}
use tangor.Iyokan.Tasks.{insert_task, synchronize_output}
use tangor.Iyokan.Calls.{Call}
use tangor.Iyokan.Memory.{registered}
use tangor.Iyokan.Memory.Registry.{Throws}
use tangor.Iyokan.Memory.Operands.{Bound, Keeps, Bound-Keeps}
use tangor.Iyokan.Memory.Insertion.{HasOutput}
use tangor.Iyokan.Memory.Assignments.{output_of}
use tangor.Iyokan.Threads.{operands_of, Thread, ready, registering, submitted}

get_elem?-append :
    (states later : List TaskState) (n : ℕ) (x : TaskState)
    → get_elem? states n ≡ some x
    → get_elem? (states ++ later) n ≡ some x
get_elem?-append [] later n x e = cc
get_elem?-append (s ∷ states) later zero x e = e
get_elem?-append (s ∷ states) later (suc n) x e = get_elem?-append states later n x e

module _ {api : StarpuApi} (y : Memory api) where
  -- What no step of any thread undoes.
  pub record Carry (b s : Backend api) : Type 0 where
    pub keeps : Keeps y b s
    pub keeps_tasks : (task h : ℕ) → HasOutput task h b.states → HasOutput task h s.states

  pub Carry-same : {b s : Backend api} → Keeps y b s → s.states ≡ b.states → Carry b s
  Carry-same keep same = record {
    keeps = keep;
    keeps_tasks = λ task h o. subst (HasOutput task h) (sym same) o;
  }

  pub insert_task-Carry :
      (codelet : api.Codelet) (accesses : List (Access × ℕ)) (b : Backend api)
      → Ends (λ task s. Carry b s) (Throws y) (insert_task api codelet accesses b)
  unfolding insert_task
  insert_task-Carry codelet [] b = stops tt
  insert_task-Carry codelet ((mode, output) ∷ inputs) b =
      Ends-if
        (is_zero (api.task_insert codelet ((mode, output) ∷ inputs) (length b.states) b.machine).0)
        (λ _. ends (record {
          keeps = λ p h found. found;
          keeps_tasks = λ task h (x, at, is_h). (x, get_elem?-append b.states _ task x at, is_h);
        }))
        λ _. stops tt

  pub synchronize_output-Carry :
      (task : ℕ) (b : Backend api)
      → Ends (λ r s. Carry b s) (Throws y) (synchronize_output api task b)
  unfolding synchronize_output
  synchronize_output-Carry task b =
      Holds-option (Ends (λ r s. Carry b s) (Throws y)) (get_elem? b.states task) _ _
        (λ _. stops tt)
        λ s found.
          Ends-if (not (is_zero s.error)) (λ _. stops tt)
            λ _.
              Ends-if (is_zero (api.data_acquire s.output starpu_r b.machine).0)
                (λ e. ends (Carry-same (λ p h at. at) refl)) λ _. stops tt

  -- What a thread knows of its call.
  abbrev pub Good : {L : Type 0} (call : L → Call api) → Backend api → Thread call → Type 0
  Good call b (ready cs) = Unit {0}
  Good call b (registering c got rest cs) =
      (before : List (Access × Place)) × Bound y b before got
      × (before ++ rest ≡ operands_of (call c))
  Good call b (submitted c task cs) =
      (h : ℕ) × (registered y b (output_of (call c)) ≡ some h) × HasOutput task h b.states

  pub Good-Carry :
      {L : Type 0} (call : L → Call api) {b s : Backend api} (t : Thread call)
      → Carry b s
      → Good call b t
      → Good call s t
  Good-Carry call (ready cs) k g = tt
  Good-Carry call (registering c got rest cs) k (before, held, whole) =
      (before, Bound-Keeps y k.keeps held, whole)
  Good-Carry call (submitted c task cs) k (h, at, o) = (h, k.keeps _ h at, k.keeps_tasks task h o)
