-- ===== src/Iyokan/Requests.antt =====
-- The requests of src/iyokan-starpu-codelets.cpp as moves of a session.
use tangor.Base.{
  Holds-option, pos, ℕ, ◌<◌, false, List, [], ◌∷◌, ◌++◌, arith, length, length-append,
}
use tangor.StarpuApi.{StarpuApi, Access}
use tangor.Iyokan.{
  TaskState, is_zero, find_handle, Backend, persistent_handle_for, persistent_variable_handle_for,
}
use tangor.Iyokan.Rules.{ends, stops, Ends-if}
use tangor.Iyokan.Tasks.{
  handles_for, variable_handles_for, insert_task, write_first, submit_async, submit_variable_async,
  submit_mux_wo_se_async,
}
use tangor.Iyokan.Calls.{Call, gate, not_gate, cmux_fft, mux_wo_se, submission}
use tangor.Iyokan.Sessions.{stays, IsSound}
use tangor.Iyokan.Soundness.{
  IsLive, Lives, Lives-then_do, ensure_starpu_runtime-Lives, ensure_starpu-Lives,
}

below-snoc :
    (t : ℕ) (xs : List TaskState) (x : TaskState) → t < length xs → t < length (xs ++ x ∷ [])
below-snoc t xs x lt = omega (arith, length-append xs (x ∷ []))

module _ (api : StarpuApi) where
  persistent_handle_for-Lives :
      (v : ℕ) (b : Backend api)
      → IsSound api b
      → IsLive api b
      → Lives api b (persistent_handle_for api v b)
  unfolding persistent_handle_for
  persistent_handle_for-Lives v b w live =
      let (first, unused, idle, task, vectors, variables) = w in
      Holds-option (Lives api b) (find_handle v b.persistent_handles) _ _
        (λ e. ends (((first, λ d. ground arith, idle, task, (e, vectors), variables), stays), live))
        λ h e. ends ((w, stays), live)

  persistent_variable_handle_for-Lives :
      (v : ℕ) (b : Backend api)
      → IsSound api b
      → IsLive api b
      → Lives api b (persistent_variable_handle_for api v b)
  unfolding persistent_variable_handle_for
  persistent_variable_handle_for-Lives v b w live =
      let (first, unused, idle, task, vectors, variables) = w in
      Holds-option (Lives api b) (find_handle v b.persistent_variable_handles) _ _
        (λ e. ends (((first, λ d. ground arith, idle, task, vectors, (e, variables)), stays), live))
        λ h e. ends ((w, stays), live)

  handles_for-Lives :
      (vs : List ℕ) (b : Backend api)
      → IsSound api b
      → IsLive api b
      → Lives api b (handles_for api vs b)
  unfolding handles_for
  handles_for-Lives [] b w live = ends ((w, stays), live)
  handles_for-Lives (v ∷ vs) b w live =
      Lives-then_do api b (persistent_handle_for-Lives v b w live) λ h s w' live'.
        Lives-then_do api s (handles_for-Lives vs s w' live')
          λ hs s' w'' live''. ends ((w'', stays), live'')

  variable_handles_for-Lives :
      (vs : List (Access × ℕ)) (b : Backend api)
      → IsSound api b
      → IsLive api b
      → Lives api b (variable_handles_for api vs b)
  unfolding variable_handles_for
  variable_handles_for-Lives [] b w live = ends ((w, stays), live)
  variable_handles_for-Lives ((m, v) ∷ vs) b w live =
      Lives-then_do api b (persistent_variable_handle_for-Lives v b w live) λ h s w' live'.
        Lives-then_do api s (variable_handles_for-Lives vs s w' live')
          λ hs s' w'' live''. ends ((w'', stays), live'')

  insert_task-Lives :
      (codelet : api.Codelet) (hs : List (Access × ℕ)) (b : Backend api)
      → IsSound api b
      → IsLive api b
      → Lives api b (insert_task api codelet hs b)
  unfolding insert_task
  insert_task-Lives codelet [] b w live = stops (w, stays)
  insert_task-Lives codelet ((m, o) ∷ is) b w live =
      let (first, unused, idle, task, vectors, variables) = w in
      let state : TaskState = record { finished = false; error = pos 0; output = o } in
      Ends-if (is_zero (api.task_insert codelet ((m, o) ∷ is) (length b.states) b.machine).0)
        (λ z. ends (
          (
            (
              first,
              λ d. ground arith,
              idle,
              λ t e. below-snoc t b.states state (task t e),
              vectors,
              variables,
            ),
            stays,
          ),
          live,
        ))
        λ z. stops (w, stays)

  submit_async-Lives :
      (codelet : api.Codelet) (vs : List ℕ) (b : Backend api)
      → IsSound api b
      → IsLive api b
      → Lives api b (submit_async api codelet vs b)
  unfolding submit_async
  submit_async-Lives codelet vs b w live =
      Lives-then_do api b (handles_for-Lives vs b w live)
        λ hs. insert_task-Lives codelet (write_first api hs)

  submit_variable_async-Lives :
      (codelet : api.Codelet) (vs : List (Access × ℕ)) (b : Backend api)
      → IsSound api b
      → IsLive api b
      → Lives api b (submit_variable_async api codelet vs b)
  unfolding submit_variable_async
  submit_variable_async-Lives codelet vs b w live =
      Lives-then_do api b (variable_handles_for-Lives vs b w live)
        λ hs. insert_task-Lives codelet hs

  submit_mux_wo_se_async-Lives :
      (codelet : api.Codelet) (output : ℕ) (vs : List ℕ) (b : Backend api)
      → IsSound api b
      → IsLive api b
      → Lives api b (submit_mux_wo_se_async api codelet output vs b)
  unfolding submit_mux_wo_se_async
  submit_mux_wo_se_async-Lives codelet output vs b w live =
      Lives-then_do api b (persistent_variable_handle_for-Lives output b w live) λ o s w' live'.
        Lives-then_do api s (handles_for-Lives vs s w' live')
          λ hs. insert_task-Lives codelet (write_first api (o ∷ hs))

  pub submission-Lives :
      (call : Call api) (b : Backend api) → IsSound api b → Lives api b (submission api call b)
  unfolding submission
  submission-Lives (gate codelet output inputs key) b w =
      Lives-then_do api b (ensure_starpu-Lives api key b w)
        λ _. submit_async-Lives codelet (output ∷ inputs)
  submission-Lives (not_gate codelet output input) b w =
      Lives-then_do api b (ensure_starpu_runtime-Lives api b w)
        λ _. submit_async-Lives codelet (output ∷ input ∷ [])
  submission-Lives (cmux_fft codelets output select when_true when_false) b w =
      Lives-then_do api b (ensure_starpu_runtime-Lives api b w)
        λ _ s w' live'. submit_variable_async-Lives _ _ s w' live'
  submission-Lives (mux_wo_se codelet output inputs key) b w =
      Lives-then_do api b (ensure_starpu-Lives api key b w)
        λ _. submit_mux_wo_se_async-Lives codelet output inputs
