-- ===== src/Shim/Tests.antt =====
-- Replaced calls on bits in the clear.
use tangor.Base.{◌≡◌, refl, true, false, xor, [], ◌∷◌, some, arith}
use tangor.Tfhe.{phase}
use tangor.Tfhe.Clear.{clear_laws}
use tangor.StarpuApi.Memory.{tlwe}
use tangor.Offload.{codelet_for, cmux_task}
use tangor.Offload.Table.{cmux}
use tangor.Iyokan.{value, Backend}
use tangor.Iyokan.Tasks.{begin_iyokan_starpu_capture, synchronize_iyokan_starpu_capture}
use tangor.Iyokan.Calls.{Call, cmux_fft, run_call}
use tangor.Iyokan.Memory.Effects.{Carries, run_call-Carries}
use tangor.Iyokan.Memory.Device.{run_clear, device_api, device_memory, device_laws}
use tangor.Shim.{offloaded}
use tangor.Shim.Bits.{HoldsBit, evaluate, evaluate_all}
use tangor.Shim.Sequences.{
  no_calls, next_call, Encrypted, offloaded_calls-Encrypts, captured_calls-Encrypts,
}
use tangor.Shim.Clear.{
  codelet, clear_runs, IsClearCmux, clear-ComputesCmux, start, known, start-Stores, prepared,
  start-prepared, start-Encrypted, state_of, returned-state, xor_call, mux_call,
}

one_call : Backend device_api
unfolding prepared run_call offloaded codelet_for run_clear phase
one_call =
    state_of (run_call device_api 2 (offloaded device_api codelet xor_call) prepared) prepared

two_calls : Backend device_api
unfolding one_call
two_calls =
    state_of (run_call device_api 2 (offloaded device_api codelet mux_call) one_call) one_call

first_ran :
    run_call device_api 2 (offloaded device_api codelet xor_call) prepared
    ≡ some (value tt, one_call)
unfolding one_call
first_ran = returned-state _ prepared refl

second_ran :
    run_call device_api 2 (offloaded device_api codelet mux_call) one_call
    ≡ some (value tt, two_calls)
unfolding two_calls
second_ran = returned-state _ one_call refl

offloaded_calls-Encrypts_example :
    HoldsBit clear_laws device_memory codelet clear_runs IsClearCmux
      (device_memory.host two_calls.machine (tlwe 40))
      false
unfolding offloaded xor
offloaded_calls-Encrypts_example =
    offloaded_calls-Encrypts clear_laws device_laws codelet clear_runs IsClearCmux 5 0 0 2 start
      prepared one_call two_calls (xor_call ∷ []) mux_call known 40 false start-Stores
      start-prepared ((λ e. cc, (λ e. cc, tt)), tt) (next_call 2 xor_call first_ran no_calls)
      (λ e. cc, (λ e. cc, (λ e. cc, tt))) second_ran refl refl

-- Before the host yields, the output is still on the device.
two_bits : device_memory.host two_calls.machine (tlwe 40) ≡ false
unfolding two_calls
two_bits = refl

-- The same calls in a capture.
begun : Backend device_api
unfolding prepared begin_iyokan_starpu_capture
begun = (begin_iyokan_starpu_capture device_api prepared).1

prepared-begun : begin_iyokan_starpu_capture device_api prepared ≡ (value tt, begun)
unfolding begun
prepared-begun = refl

first_captured : Backend device_api
unfolding begun run_call offloaded codelet_for run_clear phase
first_captured =
    state_of (run_call device_api 0 (offloaded device_api codelet xor_call) begun) begun

both_captured : Backend device_api
unfolding first_captured
both_captured =
    state_of (run_call device_api 0 (offloaded device_api codelet mux_call) first_captured)
      first_captured

first_captured_ran :
    run_call device_api 0 (offloaded device_api codelet xor_call) begun
    ≡ some (value tt, first_captured)
unfolding first_captured
first_captured_ran = returned-state _ begun refl

both_captured_ran :
    run_call device_api 0 (offloaded device_api codelet mux_call) first_captured
    ≡ some (value tt, both_captured)
unfolding both_captured
both_captured_ran = returned-state _ first_captured refl

synchronized : Backend device_api
unfolding both_captured synchronize_iyokan_starpu_capture
synchronized = state_of (synchronize_iyokan_starpu_capture device_api 2 both_captured) both_captured

synchronized_ran :
    synchronize_iyokan_starpu_capture device_api 2 both_captured ≡ some (value tt, synchronized)
unfolding synchronized
synchronized_ran = returned-state _ both_captured refl

captured_calls-Encrypts_example :
    HoldsBit clear_laws device_memory codelet clear_runs IsClearCmux
      (device_memory.host synchronized.machine (tlwe 40))
      false
    × Encrypted clear_laws device_laws codelet clear_runs IsClearCmux true
        (evaluate mux_call (evaluate_all (xor_call ∷ []) known))
        synchronized
unfolding offloaded xor
captured_calls-Encrypts_example =
    captured_calls-Encrypts clear_laws device_laws codelet clear_runs IsClearCmux 0 2 prepared begun
      first_captured both_captured synchronized (xor_call ∷ []) mux_call known 40 false
      start-Encrypted prepared-begun ((λ e. cc, (λ e. cc, tt)), tt)
      (next_call 0 xor_call first_captured_ran no_calls) (λ e. cc, (λ e. cc, (λ e. cc, tt)))
      both_captured_ran synchronized_ran refl refl

-- A CMUX with its output for the value of a true selector.
abbrev cmux_call : Call device_api
cmux_call = cmux_fft (λ c. codelet (cmux c)) 70 7 70 71

word_selected : Backend device_api
unfolding prepared run_call cmux_task run_clear
word_selected = state_of (run_call device_api 2 cmux_call prepared) prepared

word_ran : run_call device_api 2 cmux_call prepared ≡ some (value tt, word_selected)
unfolding word_selected
word_ran = returned-state _ prepared refl

run_call-Carries_example : Carries device_memory IsClearCmux cmux_call prepared word_selected
run_call-Carries_example =
    run_call-Carries device_memory IsClearCmux device_laws 2 cmux_call prepared word_selected
      start-Encrypted.started start-Encrypted.linked
      (clear-ComputesCmux, (λ e. absurd (omega (arith, e))), λ e. λ f. absurd (omega (arith, f)))
      word_ran
