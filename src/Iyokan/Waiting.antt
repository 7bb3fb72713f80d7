-- ===== src/Iyokan/Waiting.antt =====
-- `waitForTask` of src/iyokan-starpu-codelets.cpp.
use tangor.Base.{
  ℕ, zero, suc, ◌<◌, ◌≤◌, ◌≡◌, refl, ◌∙◌, true, ◌||◌, ◌==◌, ==→eq, List, [], ◌∷◌, some, arith,
  length, get_elem?, get_elem?-lt, get_elem?-set_ne, get_elem?-set_self, set, ==→ne, elem,
  Option-cases, Bool-cases, inl, inr,
}
use tangor.StarpuApi.{StarpuApi}
use tangor.Iyokan.{TaskState, Backend, complete_all, task_completed, completed}
use tangor.Iyokan.Tasks.{is_finished, synchronize_output, yield_once, wait_for_task}

-- The task has a state, and that says `finished`.
abbrev IsFinished : ℕ → List TaskState → Type 0
IsFinished task states = (s : TaskState) × (get_elem? states task ≡ some s) × (s.finished ≡ true)

abbrev pub HasState : ℕ → List TaskState → Type 0
HasState task states = (s : TaskState) × (get_elem? states task ≡ some s)

pub get_elem?-set_same :
    (states : List TaskState) (k n : ℕ) (x : TaskState)
    → (k == n) ≡ true
    → n < length states
    → get_elem? (set states k x) n ≡ some x
get_elem?-set_same states k n x same lt =
    let k_is = ==→eq k n same in rw k_is (get_elem?-set_self states n x lt)

set-HasState :
    (states : List TaskState) (k task : ℕ) (x : TaskState)
    → HasState task states
    → HasState task (set states k x)
set-HasState states k task x (s, e) = elim (Bool-cases (k == task)) [
  | inl same ↦ (x, get_elem?-set_same states k task x same (get_elem?-lt states task e))
  | inr other ↦ (s, get_elem?-set_ne states k task x (==→ne k task other) ∙ e)
]

task_completed-HasState :
    (k task : ℕ) (states : List TaskState)
    → HasState task states
    → HasState task (task_completed k states)
unfolding task_completed
task_completed-HasState k task states h = elim (Option-cases (get_elem? states k)) [
  | inl e ↦ rw (task_completed, e) h
  | inr (s, e) ↦ rw (task_completed, e) (set-HasState states k task _ h)
]

completed-HasState :
    (ks : List ℕ) (task : ℕ) (states : List TaskState)
    → HasState task states
    → HasState task (completed ks states)
unfolding completed
completed-HasState [] task states h = h
completed-HasState (k ∷ ks) task states h =
    completed-HasState ks task (task_completed k states) (task_completed-HasState k task states h)

-- The callback of a task finishes it, and no callback undoes that.
task_completed-IsFinished :
    (k task : ℕ) (states : List TaskState)
    → (s : TaskState) × (get_elem? states task ≡ some s) × ((k == task || s.finished) ≡ true)
    → IsFinished task (task_completed k states)
unfolding task_completed
task_completed-IsFinished k task states (s, e, done) = elim (Bool-cases (k == task)) [
  | inl same ↦
      let k_is = ==→eq k task same in
      let at : get_elem? states k ≡ some s = rw k_is e in
      rw (task_completed, at)
        (
          record s { finished = true },
          get_elem?-set_same states k task _ same (get_elem?-lt states task e),
          refl,
        )
  | inr other ↦ elim (Option-cases (get_elem? states k)) [
    | inl absent ↦ rw (task_completed, absent) (s, e, ground arith)
    | inr (x, at) ↦
        rw (task_completed, at)
          (s, get_elem?-set_ne states k task _ (==→ne k task other) ∙ e, ground arith)
  ]
]

completed-IsFinished :
    (ks : List ℕ) (task : ℕ) (states : List TaskState)
    → IsFinished task states
    → IsFinished task (completed ks states)
unfolding completed
completed-IsFinished [] task states f = f
completed-IsFinished (k ∷ ks) task states (s, e, done) =
    completed-IsFinished ks task (task_completed k states)
      (task_completed-IsFinished k task states (s, e, ground arith))

completed-elem :
    (ks : List ℕ) (task : ℕ) (states : List TaskState)
    → HasState task states
    → elem task ks ≡ true
    → IsFinished task (completed ks states)
unfolding completed
completed-elem [] task states h e = ground arith
completed-elem (k ∷ ks) task states (s, at) e = elim (Bool-cases (k == task)) [
  | inl same ↦
      completed-IsFinished ks task (task_completed k states)
        (task_completed-IsFinished k task states (s, at, ground arith))
  | inr other ↦
      completed-elem ks task (task_completed k states)
        (task_completed-HasState k task states (s, at)) (ground arith)
]

module _ (api : StarpuApi) where
  -- The runtime after the host thread has yielded some times.
  abbrev pub yields : ℕ → Backend api → Backend api
  yields zero b = b
  yields (suc n) b = yields n (yield_once api b)

  finished : (task : ℕ) (b : Backend api) → IsFinished task b.states → is_finished api task b ≡ true
  unfolding is_finished
  finished task b (s, e, done) = rw (is_finished, e) done

  -- The callback of the task is run when the host thread yields for the `n + 1`st time.
  abbrev pub RunsCallback : ℕ → ℕ → Backend api → Type 0
  RunsCallback n task b = elem task (api.yield (yields n b).machine).0 ≡ true

  callback-finished :
      (n task : ℕ) (b : Backend api)
      → HasState task b.states
      → RunsCallback n task b
      → is_finished api task (yields (suc n) b) ≡ true
  unfolding yield_once complete_all
  callback-finished zero task b h e =
      finished task (yield_once api b) (completed-elem (api.yield b.machine).0 task b.states h e)
  callback-finished (suc n) task b h e =
      callback-finished n task (yield_once api b)
        (completed-HasState (api.yield b.machine).0 task b.states h) e

  -- What a wait that comes to an end gives: the synchronization after some of the rounds.
  abbrev pub Returns : ℕ → ℕ → ℕ → Backend api → Type 0
  Returns n fuel task b =
      (m : ℕ) × (m ≤ n)
      × (is_finished api task (yields m b) ≡ true)
      × (wait_for_task api fuel task b ≡ some (synchronize_output api task (yields m b)))

  wait-finished :
      (n fuel task : ℕ) (b : Backend api)
      → n < fuel
      → is_finished api task (yields n b) ≡ true
      → Returns n fuel task b
  unfolding wait_for_task
  wait-finished n zero task b h f = absurd (omega arith)
  wait-finished zero (suc fuel) task b h f = (0, omega arith, f, rw (wait_for_task, f) refl)
  wait-finished (suc n) (suc fuel) task b h f = elim (Bool-cases (is_finished api task b)) [
    | inl now ↦ (0, omega arith, now, rw (wait_for_task, now) refl)
    | inr later ↦
        let (m, le, done, ret) = wait-finished n fuel task (yield_once api b) (omega arith) f in
        (suc m, omega arith, done, rw (wait_for_task, later) ret)
  ]

  -- If StarPU runs the callback of a submitted task while the host thread yields for the `n + 1`st
  -- time, `waitForTask` returns, with any fuel of at least `n + 2` rounds: after at most `n + 1` of
  -- them the task is finished, and the result is that of the synchronization of its output.
  pub wait_for_task-Returns :
      (n fuel task : ℕ) (b : Backend api)
      → HasState task b.states
      → RunsCallback n task b
      → suc n < fuel
      → Returns (suc n) fuel task b
  wait_for_task-Returns n fuel task b h e le =
      wait-finished (suc n) fuel task b le (callback-finished n task b h e)
