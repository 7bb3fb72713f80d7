-- ===== src/Iyokan/Waits.antt =====
-- Waits for tasks in src/iyokan-starpu-codelets.cpp as moves of a session.
use tangor.Base.{
  Holds-if, Holds-option, ℕ, zero, suc, ◌<◌, ◌≡◌, refl, sym, subst, ◌∙◌, true, not, List, [], ◌∷◌,
  Option, none, some, length, length-set, get_elem?,
}
use tangor.StarpuApi.{StarpuApi, starpu_r}
use tangor.Iyokan.{Outcome, TaskState, is_zero, Backend, task_completed, completed, complete_all}
use tangor.Iyokan.Rules.{Ends, ends, stops, Ends-map, Ends-if}
use tangor.Iyokan.Tasks.{is_finished, synchronize_output, yield_once, wait_for_task}
use tangor.Iyokan.Sessions.{stays, IsSound}
use tangor.Iyokan.Soundness.{Moves-trans, Follows}

length-completed :
    (tasks : List ℕ) (states : List TaskState) → length (completed tasks states) ≡ length states
unfolding completed task_completed
length-completed [] states = refl
length-completed (t ∷ ts) states =
    length-completed ts (task_completed t states)
    ∙ Holds-option (λ (xs : List TaskState). length xs ≡ length states) (get_elem? states t) _ _
        (λ e. refl) λ s e. length-set states t (record s { finished = true })

module _ (api : StarpuApi) where
  pub Follows-trans : (a b c : Backend api) → Follows api a b → Follows api b c → Follows api a c
  Follows-trans a b c (w, m) (w', m') = (w', Moves-trans m m')

  -- A step moves the session, whether it throws or not.
  abbrev pub Moved : {A : Type 0} → Backend api → Outcome A × Backend api → Type 0
  Moved b m = Ends (λ _ s. Follows api b s) (Follows api b) m

  -- The same of a step that may lack fuel.
  pub data Settles {A : Type 0} (b : Backend api) : Option (Outcome A × Backend api) → Type 0 where
    waits : Settles b none
    settles : {m : Outcome A × Backend api} → Moved b m → Settles b (some m)

  pub Settles-after :
      {A : Type 0} (a b : Backend api) {m : Option (Outcome A × Backend api)}
      → Follows api a b
      → Settles b m
      → Settles a m
  Settles-after a b f waits = waits
  Settles-after a b f (settles h) =
      settles (Ends-map h (λ _ s. Follows-trans a b s f) λ s. Follows-trans a b s f)

  pub complete_all-Follows :
      (tasks : List ℕ) (b : Backend api) → IsSound api b → Follows api b (complete_all api tasks b)
  unfolding complete_all
  complete_all-Follows tasks b (first, unused, idle, task, vectors, variables) =
      let same = length-completed tasks b.states in
      (
        (
          first,
          λ d. (let (q, f, v, h, n) = unused d in (q, f, v, h, same ∙ n)),
          idle,
          λ t e. subst (λ (n : ℕ). t < n) (sym same) (task t e),
          vectors,
          variables,
        ),
        stays,
      )

  yield_once-Follows : (b : Backend api) → IsSound api b → Follows api b (yield_once api b)
  unfolding yield_once
  yield_once-Follows b w =
      let (callbacks, machine) = api.yield b.machine in
      complete_all-Follows callbacks (record b { machine = machine }) w

  pub synchronize_output-Moved :
      (task : ℕ) (b : Backend api) → IsSound api b → Moved b (synchronize_output api task b)
  unfolding synchronize_output
  synchronize_output-Moved task b w =
      let (first, unused, idle, captured, vectors, variables) = w in
      Holds-option (Moved b) (get_elem? b.states task) _ _ (λ _. stops (w, stays))
        λ s e.
          let acquired = api.data_acquire s.output starpu_r b.machine in
          let same = length-set b.states task (record s { error = acquired.0 }) in
          Ends-if (not (is_zero s.error)) (λ _. stops (w, stays))
            λ _.
              Ends-if (is_zero acquired.0) (λ _. ends (w, stays))
                λ _. stops (
                  (
                    first,
                    λ d. (let (q, f, v, h, n) = unused d in (q, f, v, h, same ∙ n)),
                    idle,
                    λ t c. subst (λ (n : ℕ). t < n) (sym same) (captured t c),
                    vectors,
                    variables,
                  ),
                  stays,
                )

  pub wait_for_task-Settles :
      (fuel task : ℕ) (b : Backend api) → IsSound api b → Settles b (wait_for_task api fuel task b)
  unfolding wait_for_task
  wait_for_task-Settles zero task b w = waits
  wait_for_task-Settles (suc fuel) task b w =
      let next = yield_once-Follows b w in
      Holds-if (Settles b) (is_finished api task b) _ _
        (λ _. settles (synchronize_output-Moved task b w))
        (λ _.
          Settles-after b (yield_once api b) next
            (wait_for_task-Settles fuel task (yield_once api b) next.0))
