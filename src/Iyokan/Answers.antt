-- ===== src/Iyokan/Answers.antt =====
-- The entry points of src/iyokan-starpu-codelets.cpp return.
use tangor.Base.{
  ℕ, zero, suc, ◌<◌, ◌≡◌, refl, Bool, true, false, List, [], ◌∷◌, Option, some, arith, length,
  if◌then◌else◌,
}
use tangor.StarpuApi.{StarpuApi}
use tangor.Iyokan.{Outcome, value, throws, TaskState, Backend, capture_task}
use tangor.Iyokan.Rules.{Ends, ends, stops, Ends-map, Ends-given}
use tangor.Iyokan.Tasks.{finish_submission, synchronize_output}
use tangor.Iyokan.Calls.{Call, run_call, submission}
use tangor.Iyokan.Submissions.{submission-Submits}
use tangor.Iyokan.Waiting.{HasState, RunsCallback, yields, wait_for_task-Returns}

get_elem?-below : (states : List TaskState) (n : ℕ) → n < length states → HasState n states
get_elem?-below [] n lt = absurd (omega arith)
get_elem?-below (s ∷ states) zero lt = (s, refl)
get_elem?-below (s ∷ states) (suc n) lt = get_elem?-below states n (omega arith)

module _ (api : StarpuApi) where
  -- A result of the entry point.
  abbrev pub Answers : Option (Outcome (Unit {0}) × Backend api) → Type 0
  Answers o = (r : Outcome (Unit {0}) × Backend api) × (o ≡ some r)

  Answers-if :
      (c : Bool) {o p : Option (Outcome (Unit {0}) × Backend api)}
      → Answers o
      → Answers p
      → Answers (if c then o else p)
  Answers-if true a b = a
  Answers-if false a b = b

  finish_submission-Answers :
      (n fuel : ℕ) (m : Outcome ℕ × Backend api)
      → Ends (λ task s. HasState task s.states × RunsCallback api n task s) (λ _. Unit {0}) m
      → suc n < fuel
      → Answers (finish_submission api fuel m)
  unfolding finish_submission
  finish_submission-Answers n fuel (throws e, s) (stops q) le = ((throws e, s), refl)
  finish_submission-Answers n fuel (value task, s) (ends (h, runs)) le =
      let (m, below, done, returns) = wait_for_task-Returns api n fuel task s h runs le in
      Answers-if s.capture_active ((value tt, capture_task api task s), refl)
        (synchronize_output api task (yields api m s), returns)

  -- A gate, RAM or ROM call comes back, with a value or with an exception, if StarPU runs the callback of
  -- the task that the call submits while the host thread yields for the `n + 1`st time, with any fuel of
  -- at least `n + 2` rounds.
  pub run_call-Answers :
      (n fuel : ℕ) (c : Call api) (b : Backend api)
      → ((task : ℕ) (s : Backend api)
          → submission api c b ≡ (value task, s)
          → RunsCallback api n task s)
      → suc n < fuel
      → Answers (run_call api fuel c b)
  unfolding run_call
  run_call-Answers n fuel c b runs le =
      finish_submission-Answers n fuel (submission api c b)
        (Ends-map (Ends-given (submission-Submits api c b) runs)
          (λ task s ((on, last, more), r). (get_elem?-below s.states task (omega arith), r))
          λ s q. q)
        le
