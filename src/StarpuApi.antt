-- ===== src/StarpuApi.antt =====
-- What src/iyokan-starpu-codelets.cpp uses of StarPU, which is not part of the repository. The state
-- of StarPU with the registered memory is abstract, and a handle is a number.
pub mod Memory
use tangor.Base.{ℤ, ℕ, List, Option, String}

-- The fields of `starpu_conf` that the source sets, and the environment variable that it sets.
pub record Conf : Type 0 where
  -- The default of `starpu_conf_init` if there is none.
  pub ncpus : Option ℤ
  pub ncuda : ℤ
  pub sched_policy_name : Option String
  pub nworker_per_cuda : Option String

pub data Access : Type 0 where
  starpu_w starpu_r starpu_rw : Access

-- An operation that can fail gives a status, which is 0 for success.
pub record StarpuApi : Type 1 where
  pub Machine : Type 0
  -- The kinds of task: the codelets of the source.
  pub Codelet : Type 0
  pub init : Conf → Machine → ℤ × Machine
  pub vector_data_register : ℕ → Machine → ℕ × Machine
  pub variable_data_register : ℕ → Machine → ℕ × Machine
  -- `starpu_task_insert` with the handles and their accesses, and the argument of the callback.
  pub task_insert : Codelet → List (Access × ℕ) → ℕ → Machine → ℤ × Machine
  pub data_acquire : ℕ → Access → Machine → ℤ × Machine
  pub data_release : ℕ → Machine → Machine
  pub data_unregister_no_coherency : ℕ → Machine → Machine
  -- What StarPU does while the host thread waits, with the arguments of the callbacks it runs.
  pub task_wait_for_all : Machine → List ℕ × Machine
  pub shutdown : Machine → Machine
  -- The same while the host thread yields.
  pub yield : Machine → List ℕ × Machine
