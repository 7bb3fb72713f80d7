-- ===== src/Iyokan/Threads.antt =====
-- Several host threads that call src/iyokan-starpu-codelets.cpp at the same time. A step is what is done
-- under `persistentHandlesMutex`, what `ensureStarpu` does, a submission, a yield, or the acquisition and
-- release of an output.
pub mod Tasks
pub mod Carried
pub mod Steps
pub mod Submitted
pub mod Linear
use tangor.Base.{ℕ, ◌≡◌, true, List, [], ◌∷◌, ◌++◌, map, Option, none, some}
use tangor.StarpuApi.{Access, StarpuApi}
use tangor.StarpuApi.Memory.{Place, tlwe, variable}
use tangor.Offload.{Buffer, cmux_task}
use tangor.Iyokan.{
  Outcome, value, Backend, Step, persistent_handle_for, persistent_variable_handle_for,
  ensure_starpu_runtime, ensure_starpu,
}
use tangor.Iyokan.Tasks.{insert_task, is_finished, synchronize_output, yield_once}
use tangor.Iyokan.Calls.{Call, gate, not_gate, cmux_fft, mux_wo_se, address}
use tangor.Iyokan.Memory.Operands.{written, variables}

module _ {api : StarpuApi} where
  -- The codelet of a call.
  unfoldable pub codelet_of : Call api → api.Codelet
  unfolding cmux_task
  codelet_of (gate codelet output inputs key) = codelet
  codelet_of (not_gate codelet output input) = codelet
  codelet_of (cmux_fft codelets output select when_true when_false) =
      codelets (cmux_task output select when_true when_false).codelet
  codelet_of (mux_wo_se codelet output inputs key) = codelet

  -- Its operands, in the order in which they are registered and passed.
  unfoldable pub operands_of : Call api → List (Access × Place)
  unfolding cmux_task
  operands_of (gate codelet output inputs key) = written (tlwe output) (map tlwe inputs)
  operands_of (not_gate codelet output input) = written (tlwe output) (tlwe input ∷ [])
  operands_of (cmux_fft codelets output select when_true when_false) = variables (
      map (λ (x : Access × Buffer). (x.0, address x.1))
        (cmux_task output select when_true when_false).buffers)
  operands_of (mux_wo_se codelet output inputs key) = written (variable output) (map tlwe inputs)

  -- What it does first.
  unfoldable pub ensure_for : Call api → Step api (Unit {0})
  unfolding ensure_starpu ensure_starpu_runtime
  ensure_for (gate codelet output inputs key) b = ensure_starpu api key b
  ensure_for (not_gate codelet output input) b = ensure_starpu_runtime api b
  ensure_for (cmux_fft codelets output select when_true when_false) b = ensure_starpu_runtime api b
  ensure_for (mux_wo_se codelet output inputs key) b = ensure_starpu api key b

  -- `persistentHandleFor` and `persistentVariableHandleFor`.
  unfoldable pub register : Place → Step api ℕ
  unfolding persistent_handle_for persistent_variable_handle_for
  register (tlwe a) b = persistent_handle_for api a b
  register (variable a) b = persistent_variable_handle_for api a b

  module _ {L : Type 0} (call : L → Call api) where
    -- A thread between two calls; in the registration of operands, with the handles that it has; or
    -- after its submission. The calls that it has still to make come last.
    pub data Thread : Type 0 where
      ready : List L → Thread
      registering : L → List (Access × ℕ) → List (Access × Place) → List L → Thread
      submitted : L → ℕ → List L → Thread

    -- A step of a thread that does not throw, and the call that it submits.
    pub data ThreadStep : Thread → Backend api → Option L → Thread → Backend api → Type 0 where
      begins :
          {c : L} {cs : List L} {b s : Backend api}
          → ensure_for (call c) b ≡ (value tt, s)
          → ThreadStep (ready (c ∷ cs)) b none (registering c [] (operands_of (call c)) cs) s
      registers :
          {c : L} {cs : List L} {got : List (Access × ℕ)} {mode : Access} {p : Place}
          {rest : List (Access × Place)} {h : ℕ} {b s : Backend api}
          → register p b ≡ (value h, s)
          → ThreadStep
              (registering c got ((mode, p) ∷ rest) cs)
              b
              none
              (registering c (got ++ (mode, h) ∷ []) rest cs)
              s
      submits :
          {c : L} {cs : List L} {got : List (Access × ℕ)} {task : ℕ} {b s : Backend api}
          → insert_task api (codelet_of (call c)) got b ≡ (value task, s)
          → ThreadStep (registering c got [] cs) b (some c) (submitted c task cs) s
      yields :
          {c : L} {cs : List L} {task : ℕ} {b : Backend api}
          → ThreadStep (submitted c task cs) b none (submitted c task cs) (yield_once api b)
      synchronizes :
          {c : L} {cs : List L} {task : ℕ} {b s : Backend api}
          → is_finished api task b ≡ true
          → synchronize_output api task b ≡ (value tt, s)
          → ThreadStep (submitted c task cs) b none (ready cs) s
      -- In a capture, which is one of the thread, the task is not waited for.
      captures :
          {c : L} {cs : List L} {task : ℕ} {b : Backend api}
          → ThreadStep (submitted c task cs) b none (ready cs) b

    -- The steps of all threads in any order, with the calls in the order of their submission.
    pub data Runs : List Thread → Backend api → List L → List Thread → Backend api → Type 0 where
      rests : {ts : List Thread} {b : Backend api} → Runs ts b [] ts b
      runs_on :
          {ts us : List Thread} {b s z : Backend api} {order : List L} (before after : List Thread)
          (t u : Thread)
          → ts ≡ before ++ t ∷ after
          → ThreadStep t b none u s
          → Runs (before ++ u ∷ after) s order us z
          → Runs ts b order us z
      runs_call :
          {ts us : List Thread} {b s z : Backend api} {order : List L} (before after : List Thread)
          (t u : Thread) (c : L)
          → ts ≡ before ++ t ∷ after
          → ThreadStep t b (some c) u s
          → Runs (before ++ u ∷ after) s order us z
          → Runs ts b (c ∷ order) us z

    -- The calls that a thread has not submitted.
    abbrev pub unsubmitted : Thread → List L
    unsubmitted (ready cs) = cs
    unsubmitted (registering c got rest cs) = c ∷ cs
    unsubmitted (submitted c task cs) = cs

-- An order of the calls of some programs that keeps the order of each, and what is left of them.
pub data Interleaves {L : Type 0} : List (List L) → List L → List (List L) → Type 0 where
  nothing_taken : {ps : List (List L)} → Interleaves ps [] ps
  takes :
      {ps qs : List (List L)} {order : List L} (before after : List (List L)) (c : L) (cs : List L)
      → ps ≡ before ++ (c ∷ cs) ∷ after
      → Interleaves (before ++ cs ∷ after) order qs
      → Interleaves ps (c ∷ order) qs
