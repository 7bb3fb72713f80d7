-- ===== src/Iyokan/Sessions.antt =====
-- The requests that Iyokan makes to src/iyokan-starpu-codelets.cpp in a process, and the lifetime of the
-- runtime without its details.
use tangor.Base.{
  ℤ, negsuc, ℕ, ◌<◌, ◌≡◌, Bool, true, false, List, [], ◌∷◌, Option, none, some, length,
}
use tangor.StarpuApi.{StarpuApi}
use tangor.Iyokan.{
  Outcome, is_zero, find_handle, Backend, ensure_starpu, configure_iyokan_starpu,
  shutdown_iyokan_starpu,
}
use tangor.Iyokan.Tasks.{
  begin_iyokan_starpu_capture, end_iyokan_starpu_capture, synchronize_iyokan_starpu_capture,
  mark_iyokan_tlwe_host_write, mark_variable_host_write,
}
use tangor.Iyokan.Calls.{Call, run_call}

-- The functions that include/iyokan-starpu-codelets.hpp declares.
pub data Request (api : StarpuApi) : Type 0 where
  configure : ℕ → ℕ → Request api
  prepare : ℕ → Request api
  call : Call api → Request api
  begin_capture end_capture synchronize_capture shut_down : Request api
  tlwe_host_write variable_host_write : ℕ → Request api

-- The life of StarPU in the process, and the key that owns it. StarPU is started at most once, and a
-- start that failed is not repeated.
pub data Phase : Type 0 where
  fresh failed running stopped : Phase

pub record Session : Type 0 where
  pub phase : Phase
  pub owner : Option ℕ

abbrev pub session : Phase → Option ℕ → Session
session p k = record { phase = p; owner = k }

-- The moves of a session, in a row.
pub data Moves : Session → Session → Type 0 where
  stays : {s : Session} → Moves s s
  starts : {s : Session} → Moves (session running none) s → Moves (session fresh none) s
  fails : {s : Session} → Moves (session failed none) s → Moves (session fresh none) s
  claims_running :
      {key : ℕ} {s : Session}
      → Moves (session running (some key)) s
      → Moves (session running none) s
  claims_stopped :
      {key : ℕ} {s : Session}
      → Moves (session stopped (some key)) s
      → Moves (session stopped none) s
  shuts_down :
      {owner : Option ℕ} {s : Session}
      → Moves (session stopped none) s
      → Moves (session running owner) s

abbrev pub phase_of : Bool → ℤ → Bool → Phase
phase_of false status is_running = fresh
phase_of true status true = running
phase_of true status false = elim (is_zero status) [ true ↦ stopped | false ↦ failed ]

-- No address has two handles.
abbrev pub OnceEach : List (ℕ × ℕ) → Type 0
OnceEach [] = Unit {0}
OnceEach ((key, handle) ∷ entries) = (find_handle key entries ≡ none) × OnceEach entries

module _ (api : StarpuApi) where
  abbrev pub forget {ℓ} : {A : Type ℓ} → Outcome A × Backend api → Backend api
  forget (result, b) = b

  abbrev pub forget_all {ℓ} : {A : Type ℓ} → Option (Outcome A × Backend api) → Option (Backend api)
  forget_all none = none
  forget_all (some r) = some (forget r)

  -- The state after a request, whether it returned or threw; `none` without the fuel for its wait.
  unfoldable pub serve : ℕ → Request api → Backend api → Option (Backend api)
  unfolding configure_iyokan_starpu ensure_starpu run_call begin_iyokan_starpu_capture
      end_iyokan_starpu_capture synchronize_iyokan_starpu_capture shutdown_iyokan_starpu
      mark_iyokan_tlwe_host_write mark_variable_host_write
  serve fuel (configure cpus gpus) b = some (forget (configure_iyokan_starpu api cpus gpus b))
  serve fuel (prepare key) b = some (forget (ensure_starpu api key b))
  serve fuel (call c) b = forget_all (run_call api fuel c b)
  serve fuel begin_capture b = some (forget (begin_iyokan_starpu_capture api b))
  serve fuel end_capture b = some (forget (end_iyokan_starpu_capture api b))
  serve fuel synchronize_capture b = forget_all (synchronize_iyokan_starpu_capture api fuel b)
  serve fuel shut_down b = some (shutdown_iyokan_starpu api b)
  serve fuel (tlwe_host_write address) b = some (forget (mark_iyokan_tlwe_host_write api address b))
  serve fuel (variable_host_write address) b =
      some (forget (mark_variable_host_write api address b))

  -- The globals before the first request.
  unfoldable pub initial : api.Machine → Backend api
  initial machine = record {
    machine = machine;
    current_eval_key = none;
    starpu_init_once = false;
    starpu_init_status = negsuc 0;
    starpu_running = false;
    configured_cpu_workers = 0;
    configured_cuda_devices = 0;
    persistent_handles = [];
    persistent_variable_handles = [];
    capture_active = false;
    captured_task = none;
    states = [];
  }

  -- The states after the requests that were served.
  pub data Reaches (machine : api.Machine) : Backend api → Type 0 where
    at_first : Reaches machine (initial machine)
    and_then :
        {b b' : Backend api} (fuel : ℕ) (r : Request api)
        → Reaches machine b
        → serve fuel r b ≡ some b'
        → Reaches machine b'

  abbrev pub view : Backend api → Session
  view b =
      session (phase_of b.starpu_init_once b.starpu_init_status b.starpu_running) b.current_eval_key

  -- Nothing was done with StarPU.
  abbrev pub Unused : Backend api → Type 0
  Unused b =
      (b.starpu_running ≡ false)
      × (b.current_eval_key ≡ none)
      × (b.persistent_handles ≡ [])
      × (b.persistent_variable_handles ≡ [])
      × (length b.states ≡ 0)

  abbrev pub IsSound : Backend api → Type 0
  IsSound b =
      (b.starpu_init_once ≡ false → b.starpu_init_status ≡ negsuc 0)
      × (is_zero b.starpu_init_status ≡ false → Unused b)
      × (b.capture_active ≡ false → b.captured_task ≡ none)
      × ((task : ℕ) → b.captured_task ≡ some task → task < length b.states)
      × OnceEach b.persistent_handles
      × OnceEach b.persistent_variable_handles
