-- ===== src/Iyokan/Memory/Waited.antt =====
-- The values after `waitForTask` in src/iyokan-starpu-codelets.cpp.
use mathlib.Core.Option.{some-injective}
use tangor.Base.{
  Holds-option, Holds-if, ◌==◌, ==→eq, ==→ne, get_elem?-lt, get_elem?-set_ne, pos, ℕ, zero, suc,
  ◌≡◌, refl, sym, ap, ◌∙◌, true, not, List, [], ◌∷◌, Option, none, some, Option-cases, Bool-cases,
  inl, inr, get_elem?,
}
use tangor.StarpuApi.{starpu_r, StarpuApi}
use tangor.StarpuApi.Memory.{Place, Memory, MemoryLaws, Continues}
use tangor.Iyokan.{Outcome, Backend, TaskState, is_zero, completed, task_completed, complete_all}
use tangor.Iyokan.Rules.{Ends, ends, stops, Ends-if, Ends-mono}
use tangor.Iyokan.Tasks.{is_finished, synchronize_output, yield_once, wait_for_task}
use tangor.Iyokan.Waiting.{get_elem?-set_same}
use tangor.Iyokan.Memory.{handle_of, Linked, value_in, registered, value_at, IsLinked}
use tangor.Iyokan.Memory.Registry.{unregistered, Throws}
use tangor.Iyokan.Memory.Insertion.{HasOutput, Linked-same, is_zero-eq, value_in-registered}

task_completed-HasOutput :
    (k task h : ℕ) (states : List TaskState)
    → HasOutput task h states
    → HasOutput task h (task_completed k states)
unfolding task_completed
task_completed-HasOutput k task h states (x, at, is_h) =
    Holds-option (HasOutput task h) (get_elem? states k) states _ (λ _. (x, at, is_h))
      λ s found. elim (Bool-cases (k == task)) [
        | inl same ↦
            let here : get_elem? states task ≡ some s = rw (← ==→eq k task same) found in
            (
              record s { finished = true },
              get_elem?-set_same states k task _ same (get_elem?-lt states task at),
              ap (λ (z : TaskState). z.output) (some-injective _ _ (sym here ∙ at)) ∙ is_h,
            )
        | inr other ↦ (x, get_elem?-set_ne states k task _ (==→ne k task other) ∙ at, is_h)
      ]

completed-HasOutput :
    (ks : List ℕ) (task h : ℕ) (states : List TaskState)
    → HasOutput task h states
    → HasOutput task h (completed ks states)
unfolding completed
completed-HasOutput [] task h states o = o
completed-HasOutput (k ∷ ks) task h states o =
    completed-HasOutput ks task h (task_completed k states)
      (task_completed-HasOutput k task h states o)

module _ {api : StarpuApi} (y : Memory api) where
  -- No value changes, while StarPU goes on.
  pub record Waits (b s : Backend api) : Type 0 where
    pub linked : IsLinked y s
    pub same_values : (p : Place) → value_at y s p ≡ value_at y b p
    pub same_registered : (p : Place) → registered y s p ≡ registered y b p
    pub same_once : s.starpu_init_once ≡ b.starpu_init_once
    pub same_capture : s.capture_active ≡ b.capture_active

  value_in-Continues :
      {m n : api.Machine} {vs ws : List (ℕ × ℕ)} (p : Place)
      → Linked y m vs ws
      → Continues y m n
      → value_in y n (handle_of vs ws p) p ≡ value_in y m (handle_of vs ws p) p
  unfolding value_in
  value_in-Continues {vs = vs} {ws = ws} p l c = elim (Option-cases (handle_of vs ws p)) [
    | inl absent ↦ rw absent (c.same_host p (unregistered y p l absent))
    | inr (h, found) ↦ rw found (c.same_contents h)
  ]

  Linked-Continues :
      {m n : api.Machine} {vs ws : List (ℕ × ℕ)}
      → Linked y m vs ws
      → Continues y m n
      → Linked y n vs ws
  Linked-Continues l c = Linked-same y l c.up c.same_handles

  module _ (laws : MemoryLaws y) where
    -- The task's output is in main memory.
    abbrev pub Fetched : Place → Backend api → Unit {0} → Backend api → Type 0
    Fetched p b r s = Waits b s × (y.host s.machine p ≡ value_at y s p)

    Waits-machine :
        (b : Backend api) (n : api.Machine)
        → IsLinked y b
        → Continues y b.machine n
        → Waits b (record b { machine = n })
    Waits-machine b n l c = record {
      linked = Linked-Continues l c;
      same_values = λ p. value_in-Continues p l c;
      same_registered = λ p. refl;
      same_once = refl;
      same_capture = refl;
    }

    Continues-trans : {m n o : api.Machine} → Continues y m n → Continues y n o → Continues y m o
    Continues-trans c d = record {
      up = d.up;
      same_handles = λ h. d.same_handles h ∙ c.same_handles h;
      same_contents = λ h. d.same_contents h ∙ c.same_contents h;
      same_host = λ p free.
          d.same_host p (λ h at. free h (sym (c.same_handles h) ∙ at)) ∙ c.same_host p free;
    }

    -- The acquisition and the release of a registered value.
    fetches :
        (m : api.Machine) (h : ℕ) (p : Place)
        → y.Up m
        → y.stands_for m h ≡ some p
        → (api.data_acquire h starpu_r m).0 ≡ pos 0
        → Continues y m (api.data_release h (api.data_acquire h starpu_r m).1)
          × (y.host (api.data_release h (api.data_acquire h starpu_r m).1) p ≡ y.content m h)
    fetches m h p up at e =
        let c = laws.acquire_continues h m up in
        let acquired = (api.data_acquire h starpu_r m).1 in
        (
          Continues-trans c (laws.release_continues h acquired c.up),
          laws.release_keeps h p acquired (c.same_handles h ∙ at)
              ∙ laws.acquire_fetches h p m up at e,
        )

    fetched :
        (b : Backend api) (h : ℕ) (p : Place)
        → IsLinked y b
        → registered y b p ≡ some h
        → (api.data_acquire h starpu_r b.machine).0 ≡ pos 0
        → Fetched p b tt
            (record b { machine = api.data_release h (api.data_acquire h starpu_r b.machine).1 })
    fetched b h p l at e =
        let (c, found) = fetches b.machine h p l.up (l.stands p h at) e in
        (
          Waits-machine b _ l c,
          found ∙ sym (value_in-registered y b.machine _ _ p h at) ∙ sym (value_in-Continues p l c),
        )

    pub synchronize_output-Fetched :
        (task h : ℕ) (p : Place) (b : Backend api)
        → IsLinked y b
        → registered y b p ≡ some h
        → HasOutput task h b.states
        → Ends (Fetched p b) (Throws y) (synchronize_output api task b)
    unfolding synchronize_output
    synchronize_output-Fetched task h p b l at (x, is_x, is_h) =
        Holds-option (Ends (Fetched p b) (Throws y)) (get_elem? b.states task) _ _ (λ _. stops tt)
          λ s found.
            let same =
              ap (λ (z : TaskState). z.output) (some-injective _ _ (sym found ∙ is_x)) ∙ is_h in
            Ends-if (not (is_zero s.error)) (λ _. stops tt)
              λ _.
                Ends-if (is_zero (api.data_acquire s.output starpu_r b.machine).0)
                  (λ e. ends (fetched b s.output p l (at ∙ ap some (sym same)) (is_zero-eq _ e)))
                  λ _. stops tt

    pub yield_once-Waits : (b : Backend api) → IsLinked y b → Waits b (yield_once api b)
    unfolding yield_once complete_all
    yield_once-Waits b l =
        let c = laws.yield_continues b.machine l.up in
        record {
          linked = Linked-Continues l c;
          same_values = λ p. value_in-Continues p l c;
          same_registered = λ p. refl;
          same_once = refl;
          same_capture = refl;
        }

    pub yield_once-HasOutput :
        (task h : ℕ) (b : Backend api)
        → HasOutput task h b.states
        → HasOutput task h (yield_once api b).states
    unfolding yield_once complete_all
    yield_once-HasOutput task h b o = completed-HasOutput (api.yield b.machine).0 task h b.states o

    Waits-Fetched :
        {b s : Backend api} {p : Place} (r : Unit {0}) (u : Backend api)
        → Waits b s
        → Fetched p s r u
        → Fetched p b r u
    Waits-Fetched r u w (v, fetch) = (
      record {
        linked = v.linked;
        same_values = λ p. v.same_values p ∙ w.same_values p;
        same_registered = λ p. v.same_registered p ∙ w.same_registered p;
        same_once = v.same_once ∙ w.same_once;
        same_capture = v.same_capture ∙ w.same_capture;
      },
      fetch,
    )

    -- If the wait comes to an end.
    abbrev pub FetchedIf : Place → Backend api → Option (Outcome (Unit {0}) × Backend api) → Type 0
    FetchedIf p b none = Unit {0}
    FetchedIf p b (some m) = Ends (Fetched p b) (Throws y) m

    FetchedIf-Waits :
        {b s : Backend api} (p : Place) (o : Option (Outcome (Unit {0}) × Backend api))
        → Waits b s
        → FetchedIf p s o
        → FetchedIf p b o
    FetchedIf-Waits p none w f = tt
    FetchedIf-Waits p (some m) w f = Ends-mono f λ r u. Waits-Fetched r u w

    pub wait_for_task-FetchedIf :
        (fuel task h : ℕ) (p : Place) (b : Backend api)
        → IsLinked y b
        → registered y b p ≡ some h
        → HasOutput task h b.states
        → FetchedIf p b (wait_for_task api fuel task b)
    unfolding wait_for_task
    wait_for_task-FetchedIf zero task h p b l at o = tt
    wait_for_task-FetchedIf (suc fuel) task h p b l at o =
        let w = yield_once-Waits b l in
        Holds-if (FetchedIf p b) (is_finished api task b) _ _
          (λ _. synchronize_output-Fetched task h p b l at o)
          λ _. FetchedIf-Waits p (wait_for_task api fuel task (yield_once api b)) w (
            wait_for_task-FetchedIf fuel task h p (yield_once api b) w.linked
              (w.same_registered p ∙ at) (yield_once-HasOutput task h b o))
