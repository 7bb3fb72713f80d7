-- ===== src/Cufhepp.antt =====
-- The initialization of cuFHEpp in src/cufhepp_starpu.cu and src/iyokan-cufhepp-starpu.cu.
pub mod Calls
mod Tests
use tangor.Base.{
  ℕ, ◌==◌, ◌||◌, Bool, true, false, List, [], ◌∷◌, ◌++◌, Option, none, some, String, if◌then◌else◌,
}

-- What the files call of cuFHEpp and of the C library, with the key as its address.
pub data CudaCall : Type 0 where
  set_gpu_num : ℕ → CudaCall
  initialize : ℕ → CudaCall
  clean_up at_exit : CudaCall

-- What StarPU and CUDA answer: `starpu_cuda_worker_get_count()`, and the number that
-- `cudaGetDeviceCount` gives, if it succeeds.
pub record Devices : Type 0 where
  pub cuda_workers : ℕ
  pub device_count : Option ℕ

-- The global `cufhepp_initialized`, and the calls so far, the last first.
pub record Cufhepp : Type 0 where
  pub initialized : Bool
  pub calls : List CudaCall
  pub lines : List String

-- The part that both files share: the number of devices, if there is a worker and a device.
unfoldable pub usable_devices : Devices → Option ℕ
usable_devices d = elim d.device_count [
  | none ↦ none
  | some n ↦ if d.cuda_workers == 0 || n == 0 then none else some n
]

abbrev disabled : Devices → String → Cufhepp → Bool × Cufhepp
disabled d message s =
    (false, if d.cuda_workers == 0 then s else record s { lines = s.lines ++ message ∷ [] })

-- `CufheppInitialize`.
unfoldable pub cufhepp_initialize : Devices → ℕ → Cufhepp → Bool × Cufhepp
unfolding usable_devices
cufhepp_initialize d key s = elim (usable_devices d) [
  | none ↦ disabled d "cuFHEpp disabled: no CUDA device is available" s
  | some n ↦
      (true, record s { initialized = true; calls = initialize key ∷ set_gpu_num n ∷ s.calls })
]

-- `CufheppCleanUp` and `cleanupIyokanCufhepp`.
unfoldable pub cufhepp_clean_up : Cufhepp → Cufhepp
cufhepp_clean_up s =
    if s.initialized then record s { initialized = false; calls = clean_up ∷ s.calls } else s

-- `initializeIyokanCufhepp`.
unfoldable pub initialize_iyokan_cufhepp : Devices → ℕ → Cufhepp → Bool × Cufhepp
unfolding usable_devices
initialize_iyokan_cufhepp d key s = if s.initialized then (true, s) else elim (usable_devices d) [
  | none ↦ disabled d "Tangor KVSP CUDA offload disabled: no CUDA device is available" s
  | some n ↦ (
    true,
    record s { initialized = true; calls = at_exit ∷ initialize key ∷ set_gpu_num n ∷ s.calls },
  )
]
