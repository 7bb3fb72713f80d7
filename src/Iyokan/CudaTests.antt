-- ===== src/Iyokan/CudaTests.antt =====
-- A process with cuFHEpp on two GPUs.
use tangor.Base.{◌≡◌, refl, true, [], ◌∷◌, some}
use tangor.Cufhepp.{Devices}
use tangor.Iyokan.Tests.{queue_api}
use tangor.Iyokan.Sessions.{initial}
use tangor.Iyokan.Cuda.{
  initialized_with, cleaned_up, waited, shut_down, Process, fresh_process, ensure_starpu_cuda,
  shutdown_cuda, exit_process, begins, prepares, shuts_down,
}
use tangor.Iyokan.Cuda.Keys.{IsKeyed, no_key, Lives-IsKeyed}
use tangor.Iyokan.Cuda.Exit.{Exits, exit_process-Exits}

abbrev two_gpus : Devices
two_gpus = record { cuda_workers = 2; device_count = some 2 }

abbrev at_first : Process queue_api
at_first = fresh_process queue_api (record { next = 0; pending = [] })

abbrev one_key : Process queue_api
one_key = (ensure_starpu_cuda queue_api two_gpus 5 at_first).1

-- The second key is refused, and accepted after the shutdown.
abbrev another_key : Process queue_api
another_key =
    (ensure_starpu_cuda queue_api two_gpus 6
      (shutdown_cuda queue_api (ensure_starpu_cuda queue_api two_gpus 6 one_key).1)).1

another_key-owner : another_key.backend.current_eval_key ≡ some 6
unfolding ensure_starpu_cuda shutdown_cuda initial
another_key-owner = refl

Lives-IsKeyed_example : IsKeyed queue_api another_key
unfolding initial
Lives-IsKeyed_example =
    Lives-IsKeyed queue_api at_first another_key
      (prepares two_gpus 6 (shuts_down (prepares two_gpus 6 (prepares two_gpus 5 begins)))) no_key

exited :
    (exit_process queue_api one_key).events
    ≡ shut_down ∷ waited ∷ cleaned_up ∷ initialized_with 5 ∷ []
unfolding ensure_starpu_cuda exit_process initial
exited = refl

exit_process-Exits_example :
    Exits queue_api one_key (exit_process queue_api one_key)
    × (one_key.backend.starpu_running ≡ true
        → one_key.cufhepp.initialized ≡ true
        → (shutdown_cuda queue_api one_key).events
          ≡ shut_down ∷ cleaned_up ∷ waited ∷ one_key.events)
exit_process-Exits_example =
    exit_process-Exits queue_api (record { next = 0; pending = [] }) one_key
      (prepares two_gpus 5 begins)
