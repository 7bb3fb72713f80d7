-- ===== src/Iyokan/Capture.antt =====
-- Captures in src/iyokan-starpu-codelets.cpp: the calls between `beginIyokanStarpuCapture` and
-- `endIyokanStarpuCapture`.
use tangor.Base.{
  ℕ, zero, suc, ◌+◌, ◌≡◌, refl, sym, ap, subst, ◌∙◌, true, false, List, Option, none, some, arith,
  length,
}
use tangor.StarpuApi.{StarpuApi}
use tangor.Iyokan.{Outcome, value, throws, Backend, TaskState, capture_task}
use tangor.Iyokan.Rules.{Ends, ends, stops, Ends-if, Ends-value}
use tangor.Iyokan.Tasks.{begin_iyokan_starpu_capture, end_iyokan_starpu_capture, finish_submission}
use tangor.Iyokan.Calls.{Call, submission, run_call}
use tangor.Iyokan.Submissions.{Submits, Nothing, submission-Submits}

module _ (api : StarpuApi) where
  -- What `finish_submission` makes of a submission under a capture.
  abbrev Captured : Backend api → Backend api → Type 0
  Captured b b' =
      (b'.capture_active ≡ true)
      × (b'.captured_task ≡ some (length b.states))
      × (length b'.states ≡ suc (length b.states))

  -- What a call that returns has to show of the state that it leaves.
  abbrev Leaves : (Backend api → Type 0) → Option (Outcome (Unit {0}) × Backend api) → Type 0
  Leaves P (some (value a, s)) = P s
  Leaves P _ = Unit {0}

  finish_submission-active :
      (fuel task : ℕ) (s : Backend api)
      → s.capture_active ≡ true
      → finish_submission api fuel (value task, s)
        ≡ some (value tt, record s { captured_task = some task })
  unfolding finish_submission capture_task
  finish_submission-active fuel task s on = rw (finish_submission, capture_task, on) refl

  finish_submission-Captured :
      (fuel : ℕ) (b : Backend api) (m : Outcome ℕ × Backend api)
      → b.capture_active ≡ true
      → Ends (Submits api b) (Nothing api) m
      → Leaves (Captured b) (finish_submission api fuel m)
  unfolding finish_submission
  finish_submission-Captured fuel b (value task, s) on (ends (same, last, more)) =
      let active : s.capture_active ≡ true = same ∙ on in
      subst (Leaves (Captured b)) (sym (finish_submission-active fuel task s active))
        (active, ap (λ (n : ℕ). some n) last, more)
  finish_submission-Captured fuel b (throws x, s) on (stops q) = tt

  run_call-Captured :
      (fuel : ℕ) (call : Call api) (b b' : Backend api)
      → b.capture_active ≡ true
      → run_call api fuel call b ≡ some (value tt, b')
      → Captured b b'
  unfolding run_call
  run_call-Captured fuel call b b' on e =
      subst (Leaves (Captured b)) e (
        finish_submission-Captured fuel b (submission api call b) on
          (submission-Submits api call b))

  -- A number of calls that are made one after the other and return, with no fuel to wait.
  pub data Calls : ℕ → Backend api → Backend api → Type 0 where
    no_call : {b : Backend api} → Calls zero b b
    and_call :
        {n : ℕ} {b b₁ b₂ : Backend api} (call : Call api)
        → run_call api zero call b ≡ some (value tt, b₁)
        → Calls n b₁ b₂
        → Calls (suc n) b b₂

  Calls-Captured :
      (n task : ℕ) (b b' : Backend api)
      → b.capture_active ≡ true
      → suc task ≡ length b.states
      → b.captured_task ≡ some task
      → Calls n b b'
      → (b'.capture_active ≡ true)
        × (b'.captured_task ≡ some (n + task))
        × (length b'.states ≡ suc (n + task))
  Calls-Captured _ task b _ on count last no_call =
      let none_added : task ≡ 0 + task = omega arith in
      (on, last ∙ ap (λ (m : ℕ). some m) none_added, sym count ∙ ap suc none_added)
  Calls-Captured (suc n) task b b' on count last (and_call {b₁ = b₁} call e rest) =
      let (on', last', more) = run_call-Captured zero call b b₁ on e in
      let (on'', last'', more') =
        Calls-Captured n (suc task) b₁ b' on' (omega (arith, count, more))
          (last' ∙ ap (λ (m : ℕ). some m) (sym count)) rest in
      let moved : n + suc task ≡ suc n + task = omega arith in
      (on'', last'' ∙ ap (λ (m : ℕ). some m) moved, more' ∙ ap suc moved)

  Begun : Backend api → Backend api → Type 0
  Begun b s = (s.capture_active ≡ true) × (s.states ≡ b.states)

  begin-Ends :
      (b : Backend api) → Ends (λ _ s. Begun b s) (Nothing api) (begin_iyokan_starpu_capture api b)
  unfolding begin_iyokan_starpu_capture Begun
  begin-Ends b = Ends-if b.capture_active (λ _. stops tt) (λ _. ends (refl, refl))

  -- A capture around one or more calls of gates, RAM or ROM that return: no call waits, each has
  -- submitted one task, and the end of the capture gives the task of the last call and leaves the
  -- runtime without a capture.
  pub end-Calls :
      (n : ℕ) (b b₁ b₂ : Backend api)
      → begin_iyokan_starpu_capture api b ≡ (value tt, b₁)
      → Calls (suc n) b₁ b₂
      → (end_iyokan_starpu_capture api b₂ ≡ (
        value (some (n + length b.states)),
        record b₂ { capture_active = false; captured_task = none },
      ))
        × (length b₂.states ≡ suc n + length b.states)
  unfolding end_iyokan_starpu_capture Begun
  end-Calls n b b₁ b₂ begun (and_call {b₁ = b'} call e rest) =
      let (on, same) = Ends-value tt b₁ (begin-Ends b) begun in
      let (on', last, more) = run_call-Captured zero call b₁ b' on e in
      let (on'', last', more') =
        Calls-Captured n (length b₁.states) b' b₂ on' (sym more) last rest in
      let count : n + length b₁.states ≡ n + length b.states =
        ap (λ (xs : List TaskState). n + length xs) same in
      (rw (end_iyokan_starpu_capture, on'', last', count) refl, more' ∙ omega (arith, count))
