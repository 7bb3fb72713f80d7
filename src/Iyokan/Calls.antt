-- ===== src/Iyokan/Calls.antt =====
-- The entry points of src/iyokan-starpu-codelets.cpp for gates, RAM and ROM.
use tangor.Base.{ℕ, List, [], ◌∷◌, map, Option}
use tangor.StarpuApi.{Access, StarpuApi}
use tangor.Offload.{CmuxCodelet, Buffer, trlwe, trgsw, cmux_task}
use tangor.Iyokan.{Outcome, then_do, Backend, Step, ensure_starpu_runtime, ensure_starpu}
use tangor.Iyokan.Tasks.{
  submit_async, submit_variable_async, submit_mux_wo_se_async, finish_submission,
}

-- The arguments of an entry point, as addresses. A binary gate and a multiplexer give their codelet,
-- and a gate with a bootstrapping the key.
pub data Call (api : StarpuApi) : Type 0 where
  gate : api.Codelet → ℕ → List ℕ → ℕ → Call api
  not_gate : api.Codelet → ℕ → ℕ → Call api
  cmux_fft : (CmuxCodelet → api.Codelet) → ℕ → ℕ → ℕ → ℕ → Call api
  mux_wo_se : api.Codelet → ℕ → List ℕ → ℕ → Call api

abbrev pub address : Buffer → ℕ
address (trlwe n) = n
address (trgsw n) = n

module _ (api : StarpuApi) where
  -- What an entry point does before it captures the task or waits for it.
  unfoldable pub submission : Call api → Step api ℕ
  unfolding ensure_starpu ensure_starpu_runtime submit_async submit_variable_async
      submit_mux_wo_se_async cmux_task
  submission (gate codelet output inputs key) b =
      then_do (ensure_starpu api key b) λ _. submit_async api codelet (output ∷ inputs)
  submission (not_gate codelet output input) b =
      then_do (ensure_starpu_runtime api b) λ _. submit_async api codelet (output ∷ input ∷ [])
  submission (cmux_fft codelets output select when_true when_false) b =
      let task = cmux_task output select when_true when_false in
      then_do (ensure_starpu_runtime api b) λ _.
        submit_variable_async api (codelets task.codelet)
          (map (λ (x : Access × Buffer). (x.0, address x.1)) task.buffers)
  submission (mux_wo_se codelet output inputs key) b =
      then_do (ensure_starpu api key b) λ _. submit_mux_wo_se_async api codelet output inputs

  unfoldable pub run_call : ℕ → Call api → Backend api → Option (Outcome (Unit {0}) × Backend api)
  unfolding submission finish_submission
  run_call fuel call b = finish_submission api fuel (submission call b)
