-- ===== src/Iyokan.antt =====
-- src/iyokan-starpu-codelets.cpp, in the default build: the runtime behind the gates of Iyokan. The
-- thread-local globals in `Backend` are those of one host thread. A callback of StarPU runs while the
-- host thread yields in `waitForTask` or waits for all tasks.
pub mod Rules
pub mod Tasks
pub mod Calls
pub mod Submissions
pub mod Lifetime
pub mod Capture
pub mod Waiting
pub mod Sessions
pub mod Soundness
pub mod Requests
pub mod Waits
pub mod Served
pub mod History
pub mod Answers
pub mod Memory
pub mod Threads
pub mod Cuda
mod Tests
mod CudaTests
use tangor.Base.{
  ℤ, pos, negsuc, ℕ, zero, suc, ◌+◌, ◌-◌, ◌^◌, ltb, Bool, true, false, not, ◌||◌, List, [], ◌∷◌,
  ◌++◌, map, Option, none, some, String, length, get_elem?, set, ◌==◌, if◌then◌else◌,
}
use tangor.StarpuApi.{Conf, Access, starpu_w, starpu_r, starpu_rw, StarpuApi}

-- The exceptions of the file, by their messages.
pub data Thrown : Type 0 where
  not_initialized two_keys gate_not_submitted configuration_active : Thrown
  output_not_synchronized write_not_marked : Thrown
  nested_capture inactive_capture_ended inactive_capture_synchronized : Thrown

pub data Outcome {ℓ} (A : Type ℓ) : Type ℓ where
  value : A → Outcome A
  throws : Thrown → Outcome A

-- The assignments before an exception stay.
abbrev pub then_do {ℓ κ} :
    {S : Type 0} {A : Type ℓ} {B : Type κ} → Outcome A × S → (A → S → Outcome B × S) → Outcome B × S
then_do (value a, s) f = f a s
then_do (throws e, s) f = (throws e, s)

infixl 5 ◌>>=◌ ◌>>◌
abbrev ◌>>=◌ {ℓ κ} :
    {S : Type 0} {A : Type ℓ} {B : Type κ}
    → (S → Outcome A × S)
    → (A → S → Outcome B × S)
    → S
    → Outcome B × S
(m >>= f) s = then_do (m s) f

abbrev ◌>>◌ {κ} :
    {S : Type 0} {B : Type κ}
    → (S → Outcome (Unit {0}) × S)
    → (S → Outcome B × S)
    → S
    → Outcome B × S
m >> k = m >>= λ _. k

abbrev give {ℓ} : {S : Type 0} {A : Type ℓ} → A → S → Outcome A × S
give a s = (value a, s)

-- `IyokanStarpuTask::State`.
pub record TaskState : Type 0 where
  pub finished : Bool
  pub error : ℤ
  pub output : ℕ

abbrev pub is_zero : ℤ → Bool
is_zero (pos n) = n == 0
is_zero (negsuc n) = false

abbrev pub is_minus_one : ℤ → Bool
is_minus_one (pos n) = false
is_minus_one (negsuc n) = n == 0

-- `static_cast<int>` of an `unsigned`.
unfoldable pub to_int : ℕ → ℤ
to_int n = if ltb n (2 ^ 31) then pos n else negsuc (2 ^ 32 - 1 - n)

-- `std::unordered_map::find` on the addresses of values.
unfoldable pub find_handle : ℕ → List (ℕ × ℕ) → Option ℕ
find_handle key [] = none
find_handle key ((k, h) ∷ entries) =
    let rest = find_handle key entries in if k == key then some h else rest

-- The callback of a task, on the states by their numbers.
unfoldable pub task_completed : ℕ → List TaskState → List TaskState
task_completed task states = elim (get_elem? states task) [
  | some state ↦ set states task (record state { finished = true })
  | none ↦ states
]

unfoldable pub completed : List ℕ → List TaskState → List TaskState
unfolding task_completed
completed [] states = states
completed (task ∷ tasks) states = completed tasks (task_completed task states)

module _ (api : StarpuApi) where
  -- The globals of the file, the task states by their numbers, and StarPU.
  pub record Backend : Type 0 where
    pub machine : api.Machine
    pub current_eval_key : Option ℕ
    pub starpu_init_once : Bool
    pub starpu_init_status : ℤ
    pub starpu_running : Bool
    pub configured_cpu_workers : ℕ
    pub configured_cuda_devices : ℕ
    pub persistent_handles : List (ℕ × ℕ)
    pub persistent_variable_handles : List (ℕ × ℕ)
    pub capture_active : Bool
    pub captured_task : Option ℕ
    pub states : List TaskState

  abbrev pub Step : Type 0 → Type 0
  Step A = Backend → Outcome A × Backend

  unfoldable pub persistent_handle_for : ℕ → Step ℕ
  unfolding find_handle
  persistent_handle_for address b = elim (find_handle address b.persistent_handles) [
    | some handle ↦ (value handle, b)
    | none ↦
        let (handle, machine) = api.vector_data_register address b.machine in
        (
          value handle,
          record b {
            machine = machine;
            persistent_handles = (address, handle) ∷ b.persistent_handles;
          },
        )
  ]

  unfoldable pub persistent_variable_handle_for : ℕ → Step ℕ
  unfolding find_handle
  persistent_variable_handle_for address b =
      elim (find_handle address b.persistent_variable_handles) [
        | some handle ↦ (value handle, b)
        | none ↦
            let (handle, machine) = api.variable_data_register address b.machine in
            (
              value handle,
              record b {
                machine = machine;
                persistent_variable_handles = (address, handle) ∷ b.persistent_variable_handles;
              },
            )
      ]

  -- The callbacks that StarPU has run, in their order.
  unfoldable pub complete_all : List ℕ → Backend → Backend
  unfolding completed
  complete_all tasks b = record b { states = completed tasks b.states }

  unfoldable pub capture_task : ℕ → Backend → Backend
  capture_task task b = if not b.capture_active then b else record b { captured_task = some task }

  -- The configuration that `ensureStarpuRuntime` hands to `starpu_init`, if `STARPU_SCHED` is not
  -- set.
  unfoldable pub conf_of : Backend → Conf
  unfolding to_int
  conf_of b = record {
    ncpus = if ltb 0 b.configured_cpu_workers then some (to_int b.configured_cpu_workers) else none;
    ncuda = to_int b.configured_cuda_devices;
    sched_policy_name = some "dmdas";
    nworker_per_cuda = if ltb 0 b.configured_cuda_devices then some "32" else none;
  }

  -- The function that `std::call_once` calls.
  unfoldable pub init_once : Backend → Backend
  unfolding conf_of
  init_once b =
      let (status, machine) = api.init (conf_of b) b.machine in
      record b {
        machine = machine;
        starpu_init_once = true;
        starpu_init_status = status;
        starpu_running = if is_zero status then true else b.starpu_running;
      }

  unfoldable pub ensure_starpu_runtime : Step (Unit {0})
  unfolding init_once
  ensure_starpu_runtime b =
      let b' = if b.starpu_init_once then b else init_once b in
      if is_zero b'.starpu_init_status then (value tt, b') else (throws not_initialized, b')

  -- The part of `ensureStarpu` after `ensureStarpuRuntime()`; a key is its address.
  unfoldable pub claim_key : ℕ → Step (Unit {0})
  claim_key key b = elim b.current_eval_key [
    | none ↦ (value tt, record b { current_eval_key = some key })
    | some current ↦ if current == key then (value tt, b) else (throws two_keys, b)
  ]

  unfoldable pub ensure_starpu : ℕ → Step (Unit {0})
  unfolding ensure_starpu_runtime claim_key
  ensure_starpu key = do ensure_starpu_runtime; claim_key key

  unfoldable pub configure_iyokan_starpu : ℕ → ℕ → Step (Unit {0})
  configure_iyokan_starpu cpu_workers cuda_devices b =
      if b.starpu_running || not (is_minus_one b.starpu_init_status)
      then (throws configuration_active, b)
      else (
        value tt,
        record b { configured_cpu_workers = cpu_workers; configured_cuda_devices = cuda_devices },
      )

  unfoldable pub unregister_all : List (ℕ × ℕ) → api.Machine → api.Machine
  unregister_all [] m = m
  unregister_all ((key, handle) ∷ entries) m =
      unregister_all entries (api.data_unregister_no_coherency handle m)

  unfoldable pub shutdown_iyokan_starpu : Backend → Backend
  unfolding unregister_all complete_all
  shutdown_iyokan_starpu b =
      if not b.starpu_running
      then b
      else (let (callbacks, waited) = api.task_wait_for_all b.machine in
          let finished = complete_all callbacks b in
          let unregistered =
            unregister_all b.persistent_variable_handles
              (unregister_all b.persistent_handles waited) in
          record finished {
            machine = api.shutdown unregistered;
            persistent_handles = [];
            persistent_variable_handles = [];
            current_eval_key = none;
            starpu_running = false;
          })
