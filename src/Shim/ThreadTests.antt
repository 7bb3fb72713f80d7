-- ===== src/Shim/ThreadTests.antt =====
-- Two threads that call the shim at the same time, on bits in the clear.
use tangor.Base.{◌≡◌, refl, false, [], ◌∷◌, map, xor}
use tangor.Tfhe.Clear.{clear_laws}
use tangor.StarpuApi.{starpu_w, starpu_r}
use tangor.StarpuApi.Memory.{tlwe}
use tangor.Iyokan.{Outcome, value, Backend}
use tangor.Iyokan.Tasks.{insert_task, synchronize_output, yield_once}
use tangor.Iyokan.Calls.{Call}
use tangor.Iyokan.Memory.Device.{device_api, device_memory, device_laws}
use tangor.Iyokan.Threads.{
  codelet_of, operands_of, ensure_for, register, submitted, begins, registers, submits, yields,
  Runs, rests, runs_on, runs_call, unsubmitted, Interleaves,
}
use tangor.Iyokan.Memory.{value_at, IsLinked}
use tangor.Iyokan.Threads.Linear.{Performed, threads-Performed}
use tangor.Iyokan.Threads.Submitted.{all_ready}
use tangor.Shim.{offloaded}
use tangor.Shim.Bits.{HoldsBit}
use tangor.Shim.Threads.{AdmissibleCall, call_of, thread_calls-Encrypt}
use tangor.Shim.Clear.{
  codelet, clear_runs, IsClearCmux, start, known, start-Stores, prepared, start-prepared,
  start-Encrypted, xor_call, mux_call,
}

abbrev TestCall : Type 0
TestCall = AdmissibleCall clear_laws device_laws codelet clear_runs IsClearCmux

first_call : TestCall
unfolding offloaded
first_call = record { hom_call = xor_call; admissible = (λ e. cc, (λ e. cc, tt)) }

second_call : TestCall
unfolding offloaded
second_call = record { hom_call = mux_call; admissible = (λ e. cc, (λ e. cc, (λ e. cc, tt))) }

abbrev test_call : TestCall → Call device_api
test_call = call_of clear_laws device_laws codelet clear_runs IsClearCmux

has_value :
    {A : Type 0} {S : Type 0} (m : Outcome A × S) (a : A) → m.0 ≡ value a → m ≡ (value a, m.1)
has_value (r, s) a e = rw e refl

first_output : Backend device_api
unfolding prepared register
first_output = (register (tlwe 30) prepared).1

second_output : Backend device_api
unfolding first_output
second_output = (register (tlwe 40) first_output).1

first_left : Backend device_api
unfolding second_output
first_left = (register (tlwe 10) second_output).1

first_right : Backend device_api
unfolding first_left
first_right = (register (tlwe 20) first_left).1

first_submitted : Backend device_api
unfolding first_right codelet_of first_call insert_task
first_submitted =
    (insert_task device_api (codelet_of (test_call first_call))
      ((starpu_w, 0) ∷ (starpu_r, 2) ∷ (starpu_r, 3) ∷ []) first_right).1

second_submitted : Backend device_api
unfolding first_submitted second_call
second_submitted =
    (insert_task device_api (codelet_of (test_call second_call))
      ((starpu_w, 1) ∷ (starpu_r, 0) ∷ (starpu_r, 3) ∷ (starpu_r, 2) ∷ []) first_submitted).1

both_ran : Backend device_api
unfolding second_submitted yield_once
both_ran = yield_once device_api second_submitted

second_fetched : Backend device_api
unfolding both_ran synchronize_output
second_fetched = (synchronize_output device_api 1 both_ran).1

first-begins : ensure_for (test_call first_call) prepared ≡ (value tt, prepared)
unfolding prepared ensure_for first_call
first-begins = refl

second-begins : ensure_for (test_call second_call) prepared ≡ (value tt, prepared)
unfolding prepared ensure_for second_call
second-begins = refl

first-output : register (tlwe 30) prepared ≡ (value 0, first_output)
unfolding register prepared first_output
first-output = has_value _ 0 refl

second-output : register (tlwe 40) first_output ≡ (value 1, second_output)
unfolding register prepared first_output second_output
second-output = has_value _ 1 refl

first-left : register (tlwe 10) second_output ≡ (value 2, first_left)
unfolding register prepared first_output second_output first_left
first-left = has_value _ 2 refl

first-right : register (tlwe 20) first_left ≡ (value 3, first_right)
unfolding register prepared first_output second_output first_left first_right
first-right = has_value _ 3 refl

first-submits :
    insert_task device_api
      (codelet_of (test_call first_call))
      ((starpu_w, 0) ∷ (starpu_r, 2) ∷ (starpu_r, 3) ∷ [])
      first_right
    ≡ (value 0, first_submitted)
unfolding insert_task prepared first_output second_output first_left first_right first_submitted
first-submits = has_value _ 0 refl

second-select : register (tlwe 30) first_submitted ≡ (value 0, first_submitted)
unfolding register prepared first_output second_output first_left first_right first_submitted
second-select = refl

second-left : register (tlwe 20) first_submitted ≡ (value 3, first_submitted)
unfolding register prepared first_output second_output first_left first_right first_submitted
second-left = refl

second-right : register (tlwe 10) first_submitted ≡ (value 2, first_submitted)
unfolding register prepared first_output second_output first_left first_right first_submitted
second-right = refl

second-submits :
    insert_task device_api
      (codelet_of (test_call second_call))
      ((starpu_w, 1) ∷ (starpu_r, 0) ∷ (starpu_r, 3) ∷ (starpu_r, 2) ∷ [])
      first_submitted
    ≡ (value 1, second_submitted)
unfolding insert_task prepared first_output second_output first_left first_right first_submitted
    second_submitted
second-submits = has_value _ 1 refl

second-synchronizes : synchronize_output device_api 1 both_ran ≡ (value tt, second_fetched)
unfolding second_fetched
second-synchronizes = has_value _ tt refl

-- The first thread is registering while the second one begins and registers its output; the tasks of
-- both are submitted before StarPU runs them.
both_submitted :
    Runs test_call
      (all_ready test_call ((first_call ∷ []) ∷ (second_call ∷ []) ∷ []))
      prepared
      (first_call ∷ second_call ∷ [])
      (submitted first_call 0 [] ∷ submitted second_call 1 [] ∷ [])
      both_ran
unfolding both_ran operands_of first_call second_call
both_submitted = runs_on [] _ _ _ refl (begins first-begins) (
    runs_on (_ ∷ []) [] _ _ refl (begins second-begins) (
      runs_on [] _ _ _ refl (registers first-output) (
        runs_on (_ ∷ []) [] _ _ refl (registers second-output) (
          runs_on [] _ _ _ refl (registers first-left) (
            runs_on [] _ _ _ refl (registers first-right) (
              runs_call [] _ _ _ first_call refl (submits first-submits) (
                runs_on (_ ∷ []) [] _ _ refl (registers second-select) (
                  runs_on (_ ∷ []) [] _ _ refl (registers second-left) (
                    runs_on (_ ∷ []) [] _ _ refl (registers second-right) (
                      runs_call (_ ∷ []) [] _ _ second_call refl (submits second-submits)
                        (runs_on (_ ∷ []) [] _ _ refl yields rests)))))))))))

thread_calls-Encrypt_example :
    Interleaves
      ((first_call ∷ []) ∷ (second_call ∷ []) ∷ [])
      (first_call ∷ second_call ∷ [])
      (map (unsubmitted test_call) (submitted first_call 0 [] ∷ submitted second_call 1 [] ∷ []))
    × HoldsBit clear_laws device_memory codelet clear_runs IsClearCmux
        (device_memory.host second_fetched.machine (tlwe 40))
        false
unfolding first_call second_call offloaded xor
thread_calls-Encrypt_example =
    thread_calls-Encrypt clear_laws device_laws codelet clear_runs IsClearCmux 5 0 0 start prepared
      both_ran second_fetched known ((first_call ∷ []) ∷ (second_call ∷ []) ∷ [])
      (first_call ∷ second_call ∷ []) (submitted first_call 0 [] ∷ []) [] second_call 1 [] 40 false
      start-Stores start-prepared both_submitted second-synchronizes refl refl

threads-Performed_example :
    Interleaves
      ((first_call ∷ []) ∷ (second_call ∷ []) ∷ [])
      (first_call ∷ second_call ∷ [])
      (map (unsubmitted test_call) (submitted first_call 0 [] ∷ submitted second_call 1 [] ∷ []))
    × Performed test_call device_memory IsClearCmux
        (first_call ∷ second_call ∷ [])
        (value_at device_memory prepared)
        (value_at device_memory both_ran)
    × IsLinked device_memory both_ran
threads-Performed_example =
    threads-Performed test_call device_memory IsClearCmux device_laws (λ d. d.admissible)
      ((first_call ∷ []) ∷ (second_call ∷ []) ∷ []) (first_call ∷ second_call ∷ [])
      (submitted first_call 0 [] ∷ submitted second_call 1 [] ∷ []) prepared both_ran
      start-Encrypted.started start-Encrypted.linked both_submitted
