-- ===== src/Cufhepp/Tests.antt =====
-- Requests to cuFHEpp on small numbers of devices.
use tangor.Base.{◌≡◌, refl, false, List, [], ◌∷◌, none, some}
use tangor.Cufhepp.{
  Cufhepp, Devices, set_gpu_num, initialize, clean_up, cufhepp_initialize, cufhepp_clean_up,
}
use tangor.Cufhepp.Calls.{Step, start, stop, steps, IsPermitted, no_calls, steps-IsPermitted}

abbrev untouched : Cufhepp
untouched = record { initialized = false; calls = []; lines = [] }

abbrev two_gpus : Devices
two_gpus = record { cuda_workers = 2; device_count = some 2 }

abbrev no_gpu : Devices
no_gpu = record { cuda_workers = 1; device_count = none }

abbrev requests : List Step
requests =
    start no_gpu 5 ∷ start two_gpus 5 ∷ start two_gpus 5 ∷ stop ∷ stop ∷ start two_gpus 6 ∷ []

steps-IsPermitted_example : IsPermitted (steps requests untouched)
steps-IsPermitted_example = steps-IsPermitted requests untouched no_calls

-- The program `main` initializes and cleans up once.
cleaned :
    (cufhepp_clean_up (cufhepp_initialize two_gpus 5 untouched).1).calls
    ≡ clean_up ∷ initialize 5 ∷ set_gpu_num 2 ∷ []
unfolding cufhepp_initialize cufhepp_clean_up
cleaned = refl
