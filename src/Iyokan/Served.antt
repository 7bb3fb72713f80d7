-- ===== src/Iyokan/Served.antt =====
-- Captures, host writes and the shutdown of src/iyokan-starpu-codelets.cpp as moves of a session.
use tangor.Base.{
  Holds-if, Holds-option, ℤ, ℕ, ◌<◌, ◌≡◌, refl, subst, Bool, true, false, not, ◌||◌, Option, none,
  arith, length, Bool-cases, inl, inr,
}
use tangor.StarpuApi.{StarpuApi, starpu_w}
use tangor.Iyokan.{
  Outcome, is_zero, is_minus_one, find_handle, Backend, configure_iyokan_starpu, capture_task,
  shutdown_iyokan_starpu,
}
use tangor.Iyokan.Rules.{Ends, ends, stops, Ends-map, Ends-if, Ends-both}
use tangor.Iyokan.Tasks.{
  begin_iyokan_starpu_capture, end_iyokan_starpu_capture, synchronize_iyokan_starpu_capture,
  mark_iyokan_tlwe_host_write, mark_variable_host_write, finish_submission,
}
use tangor.Iyokan.Calls.{Call, run_call, submission}
use tangor.Iyokan.Sessions.{session, Moves, stays, shuts_down, phase_of, IsSound}
use tangor.Iyokan.Soundness.{Follows, IsLive, IsLive-once}
use tangor.Iyokan.Requests.{submission-Lives}
use tangor.Iyokan.Submissions.{submission-Submits}
use tangor.Iyokan.Waits.{
  Follows-trans, Moved, Settles, settles, Settles-after, complete_all-Follows,
  wait_for_task-Settles,
}

phase_of-shut :
    (once : Bool) (status : ℤ) (r : Bool) (key : Option ℕ)
    → once ≡ true
    → is_zero status ≡ true
    → r ≡ true
    → Moves (session (phase_of once status r) key) (session (phase_of once status false) none)
phase_of-shut once status r key e z d = rw (e, d, phase_of, z) (shuts_down stays)

module _ (api : StarpuApi) where
  capture_task-Follows :
      (task : ℕ) (b : Backend api)
      → IsSound api b
      → task < length b.states
      → Follows api b (capture_task api task b)
  unfolding capture_task
  capture_task-Follows task b w lt =
      let (first, unused, idle, captured, vectors, variables) = w in
      Holds-if (Follows api b) (not b.capture_active) _ _ (λ _. (w, stays))
        λ e. (
          (
            first,
            unused,
            λ d. ground arith,
            λ t c. (let q : task ≡ t = cc in subst (λ (n : ℕ). n < length b.states) q lt),
            vectors,
            variables,
          ),
          stays,
        )

  finish_submission-Settles :
      (fuel : ℕ) (b : Backend api) (m : Outcome ℕ × Backend api)
      → Ends (λ task s. Follows api b s × (task < length s.states)) (Follows api b) m
      → Settles api b (finish_submission api fuel m)
  unfolding finish_submission
  finish_submission-Settles fuel b m (stops f) = settles (stops f)
  finish_submission-Settles fuel b m (ends {a = task} {s = s} (f, lt)) =
      Holds-if (Settles api b) s.capture_active _ _
        (λ _. settles (
          ends (
            Follows-trans api b s (capture_task api task s) f
              (capture_task-Follows task s f.0 lt))))
        λ _. Settles-after api b s f (wait_for_task-Settles api fuel task s f.0)

  pub run_call-Settles :
      (fuel : ℕ) (c : Call api) (b : Backend api)
      → IsSound api b
      → Settles api b (run_call api fuel c b)
  unfolding run_call
  run_call-Settles fuel c b w = finish_submission-Settles fuel b (submission api c b) (
      Ends-map (Ends-both (submission-Lives api c b w) (submission-Submits api c b))
        (λ task s ((f, live), (on, last, more)). (f, omega arith)) λ s (f, _). f)

  pub begin-Moved :
      (b : Backend api) → IsSound api b → Moved api b (begin_iyokan_starpu_capture api b)
  unfolding begin_iyokan_starpu_capture
  begin-Moved b w =
      let (first, unused, idle, captured, vectors, variables) = w in
      Ends-if b.capture_active (λ _. stops (w, stays))
        λ _. ends ((first, unused, λ d. refl, λ t e. ground arith, vectors, variables), stays)

  pub end-Moved : (b : Backend api) → IsSound api b → Moved api b (end_iyokan_starpu_capture api b)
  unfolding end_iyokan_starpu_capture
  end-Moved b w =
      let (first, unused, idle, captured, vectors, variables) = w in
      Ends-if (not b.capture_active) (λ _. stops (w, stays))
        λ _. ends ((first, unused, λ d. refl, λ t e. ground arith, vectors, variables), stays)

  pub synchronize-Settles :
      (fuel : ℕ) (b : Backend api)
      → IsSound api b
      → Settles api b (synchronize_iyokan_starpu_capture api fuel b)
  unfolding synchronize_iyokan_starpu_capture
  synchronize-Settles fuel b w =
      Holds-if (Settles api b) (not b.capture_active) _ _ (λ _. settles (stops (w, stays)))
        λ _.
          Holds-option (Settles api b) b.captured_task _ _ (λ _. settles (ends (w, stays)))
            λ task _. wait_for_task-Settles api fuel task b w

  pub tlwe_host_write-Moved :
      (v : ℕ) (b : Backend api) → IsSound api b → Moved api b (mark_iyokan_tlwe_host_write api v b)
  unfolding mark_iyokan_tlwe_host_write
  tlwe_host_write-Moved v b w =
      Holds-option (Moved api b) (find_handle v b.persistent_handles) _ _ (λ _. ends (w, stays))
        λ h _.
          Ends-if (is_zero (api.data_acquire h starpu_w b.machine).0) (λ _. ends (w, stays))
            λ _. stops (w, stays)

  pub variable_host_write-Moved :
      (v : ℕ) (b : Backend api) → IsSound api b → Moved api b (mark_variable_host_write api v b)
  unfolding mark_variable_host_write
  variable_host_write-Moved v b w =
      Holds-option (Moved api b) (find_handle v b.persistent_variable_handles) _ _
        (λ _. ends (w, stays))
        λ h _.
          Ends-if (is_zero (api.data_acquire h starpu_w b.machine).0) (λ _. ends (w, stays))
            λ _. stops (w, stays)

  pub configure-Moved :
      (cpus gpus : ℕ) (b : Backend api)
      → IsSound api b
      → Moved api b (configure_iyokan_starpu api cpus gpus b)
  unfolding configure_iyokan_starpu
  configure-Moved cpus gpus b w =
      Ends-if (b.starpu_running || not (is_minus_one b.starpu_init_status)) (λ _. stops (w, stays))
        λ _. ends (w, stays)

  -- StarPU runs only after a start that succeeded.
  running-IsLive : (b : Backend api) → IsSound api b → b.starpu_running ≡ true → IsLive api b
  running-IsLive b w e = elim (Bool-cases (is_zero b.starpu_init_status)) [
    | inl z ↦ z
    | inr z ↦ absurd (ground (arith, e, (w.1 z).0))
  ]

  pub shutdown-Follows :
      (b : Backend api) → IsSound api b → Follows api b (shutdown_iyokan_starpu api b)
  unfolding shutdown_iyokan_starpu
  shutdown-Follows b w =
      Holds-if (Follows api b) (not b.starpu_running) _ _ (λ _. (w, stays))
        λ e.
          let on : b.starpu_running ≡ true = ground arith in
          let live = running-IsLive b w on in
          let (first, unused, idle, captured, vectors, variables) =
            (complete_all-Follows api (api.task_wait_for_all b.machine).0 b w).0 in
          (
            (first, λ d. ground arith, idle, captured, tt, tt),
            phase_of-shut b.starpu_init_once b.starpu_init_status b.starpu_running
                b.current_eval_key (IsLive-once api b w live) live on,
          )
