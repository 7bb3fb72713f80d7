-- ===== src/Iyokan/Tasks.antt =====
-- src/iyokan-starpu-codelets.cpp, in the default build: submissions, waiting, captures and host writes.
use tangor.Base.{
  pos, ℕ, zero, suc, Bool, true, false, not, List, [], ◌∷◌, ◌++◌, map, Option, none, some, length,
  get_elem?, set, if◌then◌else◌,
}
use tangor.StarpuApi.{Access, starpu_w, starpu_r, StarpuApi}
use tangor.Iyokan.{
  gate_not_submitted, output_not_synchronized, write_not_marked, nested_capture,
  inactive_capture_ended, inactive_capture_synchronized, Outcome, value, throws, then_do, TaskState,
  is_zero, find_handle, Backend, Step, persistent_handle_for, persistent_variable_handle_for,
  complete_all, capture_task,
}

module _ (api : StarpuApi) where
  -- The loop that registers the values of a task.
  unfoldable pub handles_for : List ℕ → Step api (List ℕ)
  unfolding persistent_handle_for
  handles_for [] b = (value [], b)
  handles_for (v ∷ vs) b =
      then_do (persistent_handle_for api v b)
        λ h b'. then_do (handles_for vs b') λ hs b''. (value (h ∷ hs), b'')

  -- `starpu_task_insert` with the state and its callback, and what follows it: the first buffer is the
  -- output. A task that was not submitted leaves no state.
  unfoldable pub insert_task : api.Codelet → List (Access × ℕ) → Step api ℕ
  insert_task codelet [] b = (throws gate_not_submitted, b)
  insert_task codelet ((mode, output) ∷ inputs) b =
      let task = length b.states in
      let state : TaskState = record { finished = false; error = pos 0; output = output } in
      let (status, machine) = api.task_insert codelet ((mode, output) ∷ inputs) task b.machine in
      if is_zero status
      then (value task, record b { machine = machine; states = b.states ++ state ∷ [] })
      else (throws gate_not_submitted, record b { machine = machine })

  -- The first handle is written, and the others are read.
  abbrev pub write_first : List ℕ → List (Access × ℕ)
  write_first [] = []
  write_first (output ∷ inputs) = (starpu_w, output) ∷ map (λ h. (starpu_r, h)) inputs

  unfoldable pub submit_async : api.Codelet → List ℕ → Step api ℕ
  unfolding handles_for insert_task
  submit_async codelet values b =
      then_do (handles_for values b) λ handles. insert_task codelet (write_first handles)

  -- `submitVariableAsync`, which has the same shape: the handles of the addresses with their accesses.
  unfoldable pub variable_handles_for : List (Access × ℕ) → Step api (List (Access × ℕ))
  unfolding persistent_variable_handle_for
  variable_handles_for [] b = (value [], b)
  variable_handles_for ((mode, v) ∷ vs) b =
      then_do (persistent_variable_handle_for api v b)
        λ h b'. then_do (variable_handles_for vs b') λ hs b''. (value ((mode, h) ∷ hs), b'')

  unfoldable pub submit_variable_async : api.Codelet → List (Access × ℕ) → Step api ℕ
  unfolding variable_handles_for insert_task
  submit_variable_async codelet values b =
      then_do (variable_handles_for values b) λ handles. insert_task codelet handles

  -- `submitMuxWoSEAsync`: the output is a variable, and the inputs are vectors.
  unfoldable pub submit_mux_wo_se_async : api.Codelet → ℕ → List ℕ → Step api ℕ
  unfolding handles_for insert_task persistent_variable_handle_for
  submit_mux_wo_se_async codelet output inputs b =
      then_do (persistent_variable_handle_for api output b)
        λ o b'. then_do (handles_for inputs b') λ hs. insert_task codelet (write_first (o ∷ hs))

  unfoldable pub is_finished : ℕ → Backend api → Bool
  is_finished task b = elim (get_elem? b.states task) [ some s ↦ s.finished | none ↦ false ]

  unfoldable pub synchronize_output : ℕ → Step api (Unit {0})
  synchronize_output task b = elim (get_elem? b.states task) [
    | none ↦ (throws output_not_synchronized, b)
    | some s ↦
        let (error, machine) = api.data_acquire s.output starpu_r b.machine in
        if not (is_zero s.error)
        then (throws output_not_synchronized, b)
        else if is_zero error
        then (value tt, record b { machine = api.data_release s.output machine })
        else (
          throws output_not_synchronized,
          record b { machine = machine; states = set b.states task (record s { error = error }) },
        )
  ]

  -- `std::this_thread::yield()`.
  unfoldable pub yield_once : Backend api → Backend api
  unfolding complete_all
  yield_once b =
      let (callbacks, machine) = api.yield b.machine in
      complete_all api callbacks (record b { machine = machine })

  -- `waitForTask`, with fuel for the rounds of its loop.
  unfoldable pub wait_for_task : ℕ → ℕ → Backend api → Option (Outcome (Unit {0}) × Backend api)
  unfolding is_finished synchronize_output yield_once
  wait_for_task zero task b = none
  wait_for_task (suc fuel) task b =
      let rest = wait_for_task fuel task (yield_once b) in
      if is_finished task b then some (synchronize_output task b) else rest

  unfoldable pub begin_iyokan_starpu_capture : Step api (Unit {0})
  begin_iyokan_starpu_capture b =
      if b.capture_active
      then (throws nested_capture, b)
      else (value tt, record b { capture_active = true; captured_task = none })

  unfoldable pub end_iyokan_starpu_capture : Step api (Option ℕ)
  end_iyokan_starpu_capture b =
      if not b.capture_active
      then (throws inactive_capture_ended, b)
      else (value b.captured_task, record b { capture_active = false; captured_task = none })

  unfoldable pub synchronize_iyokan_starpu_capture :
      ℕ → Backend api → Option (Outcome (Unit {0}) × Backend api)
  unfolding wait_for_task
  synchronize_iyokan_starpu_capture fuel b =
      if not b.capture_active
      then some (throws inactive_capture_synchronized, b)
      else elim b.captured_task [
        | none ↦ some (value tt, b)
        | some task ↦ wait_for_task fuel task b
      ]

  -- `markIyokanTLWEHostWrite`.
  unfoldable pub mark_iyokan_tlwe_host_write : ℕ → Step api (Unit {0})
  unfolding find_handle
  mark_iyokan_tlwe_host_write address b = elim (find_handle address b.persistent_handles) [
    | none ↦ (value tt, b)
    | some handle ↦
        let (status, machine) = api.data_acquire handle starpu_w b.machine in
        if is_zero status
        then (value tt, record b { machine = api.data_release handle machine })
        else (throws write_not_marked, record b { machine = machine })
  ]

  -- `markVariableHostWrite`.
  unfoldable pub mark_variable_host_write : ℕ → Step api (Unit {0})
  unfolding find_handle
  mark_variable_host_write address b = elim (find_handle address b.persistent_variable_handles) [
    | none ↦ (value tt, b)
    | some handle ↦
        let (status, machine) = api.data_acquire handle starpu_w b.machine in
        if is_zero status
        then (value tt, record b { machine = api.data_release handle machine })
        else (throws write_not_marked, record b { machine = machine })
  ]

  -- What the entry points do with a submission: under a capture the task is captured, elsewhere it is
  -- waited for.
  unfoldable pub finish_submission :
      ℕ → Outcome ℕ × Backend api → Option (Outcome (Unit {0}) × Backend api)
  unfolding capture_task wait_for_task
  finish_submission fuel (throws e, b) = some (throws e, b)
  finish_submission fuel (value task, b) =
      let waited = wait_for_task fuel task b in
      if b.capture_active then some (value tt, capture_task api task b) else waited
