-- ===== src/Iyokan/Threads/Linear.antt =====
-- Any interleaving of threads that call src/iyokan-starpu-codelets.cpp, as one sequence of calls.
use mathlib.Core.Path.{fun_ext}
use tangor.Base.{ℕ, ◌≡◌, refl, subst, List, [], ◌∷◌, ◌++◌, map, Option}
use tangor.StarpuApi.{StarpuApi}
use tangor.StarpuApi.Memory.{Place, Memory, MemoryLaws}
use tangor.Iyokan.{value, Backend}
use tangor.Iyokan.Rules.{Ends-value}
use tangor.Iyokan.Tasks.{synchronize_output}
use tangor.Iyokan.Calls.{Call}
use tangor.Iyokan.Memory.{IsStarted, value_at, IsLinked}
use tangor.Iyokan.Memory.Waited.{Fetched, synchronize_output-Fetched}
use tangor.Iyokan.Memory.Assignments.{output_of, Admissible, Assigns}
use tangor.Iyokan.Threads.{
  Thread, submitted, ThreadStep, Runs, rests, runs_on, runs_call, unsubmitted, Interleaves,
}
use tangor.Iyokan.Threads.Submitted.{all_ready, Runs-Interleaves, unsubmitted-ready}
use tangor.Iyokan.Threads.Carried.{Carry, Good, Good-Carry}
use tangor.Iyokan.Threads.Steps.{Advances, ThreadStep-Advances}

module _ {api : StarpuApi} {L : Type 0} (call : L → Call api) where
  module _ (y : Memory api) where
    abbrev AllGood : Backend api → List (Thread call) → Type 0
    AllGood b [] = Unit {0}
    AllGood b (t ∷ ts) = Good y call b t × AllGood b ts

    AllGood-ready : (b : Backend api) (ps : List (List L)) → AllGood b (all_ready call ps)
    AllGood-ready b [] = tt
    AllGood-ready b (p ∷ ps) = (tt, AllGood-ready b ps)

    AllGood-Carry :
        (b s : Backend api) (ts : List (Thread call)) → Carry y b s → AllGood b ts → AllGood s ts
    AllGood-Carry b s [] k g = tt
    AllGood-Carry b s (t ∷ ts) k (g, gs) = (Good-Carry y call t k g, AllGood-Carry b s ts k gs)

    AllGood-at :
        (b : Backend api) (before after : List (Thread call)) (t : Thread call)
        → AllGood b (before ++ t ∷ after)
        → Good y call b t
    AllGood-at b [] after t (g, gs) = g
    AllGood-at b (x ∷ before) after t (g, gs) = AllGood-at b before after t gs

    AllGood-set :
        (b s : Backend api) (before after : List (Thread call)) (t u : Thread call)
        → Carry y b s
        → AllGood b (before ++ t ∷ after)
        → Good y call s u
        → AllGood s (before ++ u ∷ after)
    AllGood-set b s [] after t u k (g, gs) g' = (g', AllGood-Carry b s after k gs)
    AllGood-set b s (x ∷ before) after t u k (g, gs) g' =
        (Good-Carry y call x k g, AllGood-set b s before after t u k gs g')

  module _ (y : Memory api) (IsCmux : y.Value → y.Value → y.Value → y.Value → Type 0) where
    -- The calls as assignments, one after the other.
    abbrev pub Performed : List L → (Place → y.Value) → (Place → y.Value) → Type 0
    Performed [] μ ν = (p : Place) → ν p ≡ μ p
    Performed (c ∷ cs) μ ν =
        (κ : Place → y.Value) × Assigns y IsCmux (call c) μ κ × Performed cs κ ν

    -- What the steps of all threads leave.
    record Reaches (b : Backend api) (order : List L) (us : List (Thread call)) (z : Backend api)
        : Type 0 where
      pub started : IsStarted z
      pub linked : IsLinked y z
      pub good : AllGood y z us
      pub performed : Performed order (value_at y b) (value_at y z)

    module _ (laws : MemoryLaws y) (admissible : (c : L) → Admissible y IsCmux (call c)) where
      advances :
          {b s : Backend api} {o : Option L} {ts : List (Thread call)}
          (before after : List (Thread call)) (t u : Thread call)
          → ts ≡ before ++ t ∷ after
          → IsStarted b
          → IsLinked y b
          → ThreadStep call t b o u s
          → AllGood y b ts
          → Advances y laws IsCmux call b o u s × AllGood y s (before ++ u ∷ after)
      advances {b = b} {s = s} before after t u e on l step g =
          let g' = subst (AllGood y b) e g in
          let a =
            ThreadStep-Advances y laws IsCmux call admissible on l step
              (AllGood-at y b before after t g') in
          (a, AllGood-set y b s before after t u a.carry g' a.good)

      Runs-Reaches :
          {ts us : List (Thread call)} {b z : Backend api} {order : List L}
          → IsStarted b
          → IsLinked y b
          → Runs call ts b order us z
          → AllGood y b ts
          → Reaches b order us z
      Runs-Reaches on l rests g = record {
        started = on;
        linked = l;
        good = g;
        performed = λ p. refl;
      }
      Runs-Reaches on l
            (runs_on {us = us} {b = b} {s = s} {z = z} {order = order} before after t u e step rest)
            g =
          let (a, goods) = advances before after t u e on l step g in
          let r = Runs-Reaches a.started a.linked rest goods in
          record {
            started = r.started;
            linked = r.linked;
            good = r.good;
            performed =
                subst (λ (μ : Place → y.Value). Performed order μ (value_at y z)) (fun_ext a.effect)
                  r.performed;
          }
      Runs-Reaches on l
            (runs_call {us = us} {b = b} {s = s} {z = z} {order = order} before after t u c e step
              rest)
            g =
          let (a, goods) = advances before after t u e on l step g in
          let r = Runs-Reaches a.started a.linked rest goods in
          record {
            started = r.started;
            linked = r.linked;
            good = r.good;
            performed = (value_at y s, a.effect, r.performed);
          }

      -- Under what StarPU documents: when threads make gate, RAM and ROM calls of a started runtime at
      -- the same time, with their steps in any order, without an exception and each waiting for its
      -- tasks or capturing them, then all values are those of the calls carried out as assignments one
      -- after the other in some order that keeps the order of each thread, and the registries still
      -- agree with StarPU. The output of a gate is none of its inputs, and that of a CMUX, whose
      -- codelets compute it, not both of its data inputs.
      pub threads-Performed :
          (programs : List (List L)) (order : List L) (us : List (Thread call)) (b z : Backend api)
          → IsStarted b
          → IsLinked y b
          → Runs call (all_ready call programs) b order us z
          → Interleaves programs order (map (unsubmitted call) us)
            × Performed order (value_at y b) (value_at y z)
            × IsLinked y z
      threads-Performed programs order us b z on l runs =
          let r = Runs-Reaches on l runs (AllGood-ready y b programs) in
          (
            subst (λ (ps : List (List L)). Interleaves ps order (map (unsubmitted call) us))
                (unsubmitted-ready call programs) (Runs-Interleaves call runs),
            r.performed,
            r.linked,
          )

      -- The return of a call to its thread.
      pub thread-Fetched :
          (programs : List (List L)) (order : List L) (before after : List (Thread call)) (c : L)
          (task : ℕ) (cs : List L) (b z s : Backend api)
          → IsStarted b
          → IsLinked y b
          → Runs call (all_ready call programs) b order (before ++ submitted c task cs ∷ after) z
          → synchronize_output api task z ≡ (value tt, s)
          → Fetched y laws (output_of (call c)) z tt s
      thread-Fetched programs order before after c task cs b z s on l runs e =
          let r = Runs-Reaches on l runs (AllGood-ready y b programs) in
          let (h, at, o) = AllGood-at y z before after (submitted c task cs) r.good in
          Ends-value tt s (synchronize_output-Fetched y laws task h _ z r.linked at o) e
