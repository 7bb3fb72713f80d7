-- ===== src/Iyokan/Submissions.antt =====
-- What the entry points of src/iyokan-starpu-codelets.cpp do to the tasks and to the capture.
use tangor.Base.{
  pos, ℕ, suc, ◌≡◌, refl, ap, ◌∙◌, false, ◌==◌, List, [], ◌∷◌, ◌++◌, arith, length, length-append,
  Option-cases, Bool-cases, inl, inr,
}
use tangor.StarpuApi.{Access, StarpuApi}
use tangor.Iyokan.{
  Outcome, then_do, is_zero, find_handle, Backend, TaskState, persistent_handle_for,
  persistent_variable_handle_for, init_once, ensure_starpu_runtime, claim_key, ensure_starpu,
}
use tangor.Iyokan.Rules.{Ends, ends, stops, Ends-then_do, Ends-mono, Ends-if}
use tangor.Iyokan.Tasks.{
  handles_for, variable_handles_for, insert_task, write_first, submit_async, submit_variable_async,
  submit_mux_wo_se_async,
}
use tangor.Iyokan.Calls.{Call, gate, not_gate, cmux_fft, mux_wo_se, submission}

module _ (api : StarpuApi) where
  -- Neither the capture nor the list of tasks changes.
  abbrev Same : Backend api → Backend api → Type 0
  Same b s = (s.capture_active ≡ b.capture_active) × (s.states ≡ b.states)

  -- The last of the tasks is new.
  abbrev pub Submits : Backend api → ℕ → Backend api → Type 0
  Submits b task s =
      (s.capture_active ≡ b.capture_active)
      × (task ≡ length b.states)
      × (length s.states ≡ suc (length b.states))

  abbrev pub Nothing : Backend api → Type 0
  Nothing b = Unit {0}

  ensure_starpu_runtime-Same :
      (b : Backend api) → Ends (λ _ s. Same b s) Nothing (ensure_starpu_runtime api b)
  unfolding ensure_starpu_runtime init_once
  ensure_starpu_runtime-Same b = elim (Bool-cases b.starpu_init_once) [
    | inl e ↦
        rw (ensure_starpu_runtime, e)
          (Ends-if (is_zero b.starpu_init_status) (λ _. ends (refl, refl)) (λ _. stops tt))
    | inr e ↦
        rw (ensure_starpu_runtime, e)
          (Ends-if (is_zero (init_once api b).starpu_init_status) (λ _. ends (refl, refl))
            (λ _. stops tt))
  ]

  claim_key-Same :
      (key : ℕ) (b : Backend api) → Ends (λ _ s. Same b s) Nothing (claim_key api key b)
  unfolding claim_key
  claim_key-Same key b = elim (Option-cases b.current_eval_key) [
    | inl e ↦ rw (claim_key, e) (ends (refl, refl))
    | inr (k, e) ↦ rw (claim_key, e) (Ends-if (k == key) (λ _. ends (refl, refl)) (λ _. stops tt))
  ]

  persistent_handle_for-Same :
      (v : ℕ) (b : Backend api) → Ends (λ _ s. Same b s) Nothing (persistent_handle_for api v b)
  unfolding persistent_handle_for find_handle
  persistent_handle_for-Same v b = elim (Option-cases (find_handle v b.persistent_handles)) [
    | inl e ↦ rw (persistent_handle_for, e) (ends (refl, refl))
    | inr (h, e) ↦ rw (persistent_handle_for, e) (ends (refl, refl))
  ]

  handles_for-Same :
      (vs : List ℕ) (b : Backend api) → Ends (λ _ s. Same b s) Nothing (handles_for api vs b)
  unfolding handles_for
  handles_for-Same [] b = ends (refl, refl)
  handles_for-Same (v ∷ vs) b =
      Ends-then_do (persistent_handle_for-Same v b)
        λ h s p. Ends-then_do (handles_for-Same vs s) λ hs s' p'. ends (p'.0 ∙ p.0, p'.1 ∙ p.1)

  ensure_starpu-Same :
      (key : ℕ) (b : Backend api) → Ends (λ _ s. Same b s) Nothing (ensure_starpu api key b)
  unfolding ensure_starpu
  ensure_starpu-Same key b =
      Ends-then_do (ensure_starpu_runtime-Same b)
        λ _ s p. Ends-mono (claim_key-Same key s) λ _ s' p'. (p'.0 ∙ p.0, p'.1 ∙ p.1)

  length-snoc :
      (b : Backend api) (x : TaskState) → length (b.states ++ x ∷ []) ≡ suc (length b.states)
  length-snoc b x = omega (arith, length-append b.states (x ∷ []))

  persistent_variable_handle_for-Same :
      (v : ℕ) (b : Backend api)
      → Ends (λ _ s. Same b s) Nothing (persistent_variable_handle_for api v b)
  unfolding persistent_variable_handle_for find_handle
  persistent_variable_handle_for-Same v b =
      elim (Option-cases (find_handle v b.persistent_variable_handles)) [
        | inl e ↦ rw (persistent_variable_handle_for, e) (ends (refl, refl))
        | inr (h, e) ↦ rw (persistent_variable_handle_for, e) (ends (refl, refl))
      ]

  variable_handles_for-Same :
      (vs : List (Access × ℕ)) (b : Backend api)
      → Ends (λ _ s. Same b s) Nothing (variable_handles_for api vs b)
  unfolding variable_handles_for
  variable_handles_for-Same [] b = ends (refl, refl)
  variable_handles_for-Same ((m, v) ∷ vs) b =
      Ends-then_do (persistent_variable_handle_for-Same v b) λ h s p.
        Ends-then_do (variable_handles_for-Same vs s) λ hs s' p'. ends (p'.0 ∙ p.0, p'.1 ∙ p.1)

  insert_task-Submits :
      (codelet : api.Codelet) (hs : List (Access × ℕ)) (b : Backend api)
      → Ends (Submits b) Nothing (insert_task api codelet hs b)
  unfolding insert_task
  insert_task-Submits codelet [] b = stops tt
  insert_task-Submits codelet ((m, o) ∷ is) b =
      Ends-if (is_zero (api.task_insert codelet ((m, o) ∷ is) (length b.states) b.machine).0)
        (λ _.
          ends (refl, refl, length-snoc b (record { finished = false; error = pos 0; output = o })))
        (λ _. stops tt)

  -- What is submitted after a step that keeps the capture and the tasks.
  after-Same :
      {A : Type 0} (b : Backend api) {m : Outcome A × Backend api}
      {f : A → Backend api → Outcome ℕ × Backend api}
      → Ends (λ _ s. Same b s) Nothing m
      → ((a : A) (s : Backend api) → Ends (Submits s) Nothing (f a s))
      → Ends (Submits b) Nothing (then_do m f)
  after-Same b h k = Ends-then_do h λ a s p. Ends-mono (k a s) λ task t (on, last, more).
      (on ∙ p.0, last ∙ ap length p.1, more ∙ ap (λ (xs : List TaskState). suc (length xs)) p.1)

  submit_async-Submits :
      (codelet : api.Codelet) (vs : List ℕ) (b : Backend api)
      → Ends (Submits b) Nothing (submit_async api codelet vs b)
  unfolding submit_async
  submit_async-Submits codelet vs b =
      after-Same b (handles_for-Same vs b)
        λ hs s. insert_task-Submits codelet (write_first api hs) s

  submit_variable_async-Submits :
      (codelet : api.Codelet) (vs : List (Access × ℕ)) (b : Backend api)
      → Ends (Submits b) Nothing (submit_variable_async api codelet vs b)
  unfolding submit_variable_async
  submit_variable_async-Submits codelet vs b =
      after-Same b (variable_handles_for-Same vs b) λ hs s. insert_task-Submits codelet hs s

  submit_mux_wo_se_async-Submits :
      (codelet : api.Codelet) (output : ℕ) (vs : List ℕ) (b : Backend api)
      → Ends (Submits b) Nothing (submit_mux_wo_se_async api codelet output vs b)
  unfolding submit_mux_wo_se_async
  submit_mux_wo_se_async-Submits codelet output vs b =
      after-Same b (persistent_variable_handle_for-Same output b) λ o s.
        after-Same s (handles_for-Same vs s)
          λ hs s'. insert_task-Submits codelet (write_first api (o ∷ hs)) s'

  -- Every entry point either throws or adds one task, and it leaves the capture alone until then.
  pub submission-Submits :
      (call : Call api) (b : Backend api) → Ends (Submits b) Nothing (submission api call b)
  unfolding submission
  submission-Submits (gate codelet output inputs key) b =
      after-Same b (ensure_starpu-Same key b)
        λ _ s. submit_async-Submits codelet (output ∷ inputs) s
  submission-Submits (not_gate codelet output input) b =
      after-Same b (ensure_starpu_runtime-Same b)
        λ _ s. submit_async-Submits codelet (output ∷ input ∷ []) s
  submission-Submits (cmux_fft codelets output select when_true when_false) b =
      after-Same b (ensure_starpu_runtime-Same b) λ _ s. submit_variable_async-Submits _ _ s
  submission-Submits (mux_wo_se codelet output inputs key) b =
      after-Same b (ensure_starpu-Same key b)
        λ _ s. submit_mux_wo_se_async-Submits codelet output inputs s
