-- ===== src/Iyokan/Tests.antt =====
-- The runtime on a StarPU that numbers its handles and finishes one task whenever the host yields.
use tangor.Base.{
  subst, pos, negsuc, ℕ, suc, ◌≡◌, refl, true, false, List, [], ◌∷◌, ◌++◌, none, some, arith,
  length,
}
use tangor.StarpuApi.{StarpuApi}
use tangor.Iyokan.{Outcome, value, throws, two_keys, Backend, ensure_starpu, shutdown_iyokan_starpu}
use tangor.Iyokan.Tasks.{yield_once, begin_iyokan_starpu_capture, end_iyokan_starpu_capture}
use tangor.Iyokan.Lifetime.{ensure_starpu-shutdown}
use tangor.Iyokan.Waiting.{RunsCallback, Returns, wait_for_task-Returns}
use tangor.Iyokan.Capture.{Calls, no_call, and_call, end-Calls}
use tangor.Iyokan.Calls.{gate, cmux_fft, run_call, submission}
use tangor.Iyokan.Sessions
use tangor.Iyokan.Sessions.{
  Reaches, at_first, and_then, serve, prepare, shut_down, IsSound, view, Moves,
}
use tangor.Iyokan.History.{Reaches-IsSound, serve-Follows, serve-stopped}
use tangor.Iyokan.Answers.{run_call-Answers}

-- The next handle and the pending tasks.
pub record Queue : Type 0 where
  pub next : ℕ
  pub pending : List ℕ

abbrev pub finish_first : List ℕ → ℕ → List ℕ × Queue
finish_first [] n = ([], record { next = n; pending = [] })
finish_first (task ∷ tasks) n = (task ∷ [], record { next = n; pending = tasks })

abbrev pub queue_api : StarpuApi
queue_api = record {
  Machine = Queue;
  Codelet = Unit {0};
  init = λ conf q. (pos 0, q);
  vector_data_register = λ address q. (q.next, record q { next = suc q.next });
  variable_data_register = λ address q. (q.next, record q { next = suc q.next });
  task_insert = λ codelet handles task q. (pos 0, record q { pending = q.pending ++ task ∷ [] });
  data_acquire = λ handle access q. (pos 0, q);
  data_release = λ handle q. q;
  data_unregister_no_coherency = λ handle q. q;
  task_wait_for_all = λ q. (q.pending, record q { pending = [] });
  shutdown = λ q. q;
  yield = λ q. finish_first q.pending q.next;
}

abbrev initial : Backend queue_api
initial = record {
  machine = record { next = 0; pending = [] };
  current_eval_key = none;
  starpu_init_once = false;
  starpu_init_status = negsuc 0;
  starpu_running = false;
  configured_cpu_workers = 0;
  configured_cuda_devices = 0;
  persistent_handles = [];
  persistent_variable_handles = [];
  capture_active = false;
  captured_task = none;
  states = [];
}

abbrev running : Backend queue_api
running = record initial {
  current_eval_key = some 5;
  starpu_init_once = true;
  starpu_init_status = pos 0;
  starpu_running = true;
}

initial_prepared : ensure_starpu queue_api 5 initial ≡ (value tt, running)
unfolding ensure_starpu
initial_prepared = refl

other_key_refused : ensure_starpu queue_api 6 running ≡ (throws two_keys, running)
unfolding ensure_starpu
other_key_refused = refl

ensure_starpu-shutdown_example :
    (ensure_starpu queue_api 6 (shutdown_iyokan_starpu queue_api running)
      ≡ (value tt, record (shutdown_iyokan_starpu queue_api running) { current_eval_key = some 6 }))
    × ((shutdown_iyokan_starpu queue_api running).starpu_running ≡ false)
ensure_starpu-shutdown_example =
    ensure_starpu-shutdown queue_api 5 6 initial running initial_prepared refl

-- Two tasks are pending, and the second is waited for.
abbrev waiting : Backend queue_api
waiting = record running {
  machine = record { next = 2; pending = 0 ∷ 1 ∷ [] };
  states =
      record { finished = false; error = pos 0; output = 0 }
      ∷ record { finished = false; error = pos 0; output = 1 }
      ∷ [];
}

wait_for_task-Returns_example : Returns queue_api 2 3 1 waiting
unfolding yield_once
wait_for_task-Returns_example =
    wait_for_task-Returns queue_api 1 3 1 waiting
      (record { finished = false; error = pos 0; output = 1 }, refl) refl (omega arith)

abbrev begun : Backend queue_api
begun = record running { capture_active = true; captured_task = none }

-- A gate writes the value at 30 from that at 10, and a CMUX with the selector at 7 the word at 70 from
-- those at 70 and 71.
abbrev one_call : Backend queue_api
one_call = record begun {
  machine = record { next = 2; pending = 0 ∷ [] };
  persistent_handles = (10, 1) ∷ (30, 0) ∷ [];
  captured_task = some 0;
  states = record { finished = false; error = pos 0; output = 0 } ∷ [];
}

abbrev two_calls : Backend queue_api
two_calls = record one_call {
  machine = record { next = 5; pending = 0 ∷ 1 ∷ [] };
  persistent_variable_handles = (71, 4) ∷ (7, 3) ∷ (70, 2) ∷ [];
  captured_task = some 1;
  states =
      record { finished = false; error = pos 0; output = 0 }
      ∷ record { finished = false; error = pos 0; output = 2 }
      ∷ [];
}

first_call : run_call queue_api 0 (gate tt 30 (10 ∷ []) 5) begun ≡ some (value tt, one_call)
unfolding run_call
first_call = refl

second_call :
    run_call queue_api 0 (cmux_fft (λ _. tt) 70 7 70 71) one_call ≡ some (value tt, two_calls)
unfolding run_call
second_call = refl

calls : Calls queue_api 2 begun two_calls
calls =
    and_call (gate tt 30 (10 ∷ []) 5) first_call
      (and_call (cmux_fft (λ _. tt) 70 7 70 71) second_call no_call)

begin_running : begin_iyokan_starpu_capture queue_api running ≡ (value tt, begun)
unfolding begin_iyokan_starpu_capture
begin_running = refl

end-Calls_example :
    (end_iyokan_starpu_capture queue_api two_calls
      ≡ (value (some 1), record two_calls { capture_active = false; captured_task = none }))
    × (length two_calls.states ≡ 2)
end-Calls_example = end-Calls queue_api 1 running begun two_calls begin_running calls

-- A key is prepared, and the runtime is shut down.
running-Reaches : Reaches queue_api (record { next = 0; pending = [] }) running
unfolding Sessions.initial serve
running-Reaches = and_then 0 (prepare 5) at_first refl

abbrev stopped : Backend queue_api
stopped = record running { current_eval_key = none; starpu_running = false }

stopped-served : serve queue_api 0 shut_down running ≡ some stopped
unfolding serve
stopped-served = refl

Reaches-IsSound_example : IsSound queue_api running
Reaches-IsSound_example =
    Reaches-IsSound queue_api (record { next = 0; pending = [] }) running running-Reaches

serve-Follows_example :
    IsSound queue_api stopped × Moves (view queue_api running) (view queue_api stopped)
serve-Follows_example =
    serve-Follows queue_api 0 shut_down running stopped
      (Reaches-IsSound queue_api (record { next = 0; pending = [] }) running running-Reaches)
      stopped-served

abbrev claimed : Backend queue_api
claimed = record stopped { current_eval_key = some 6 }

claimed-served : serve queue_api 0 (prepare 6) stopped ≡ some claimed
unfolding serve
claimed-served = refl

stopped-IsSound : IsSound queue_api stopped
stopped-IsSound = (λ d. ground arith, λ d. ground arith, λ _. refl, λ t e. ground arith, tt, tt)

serve-stopped_example : (claimed.starpu_init_once ≡ true) × (claimed.starpu_running ≡ false)
serve-stopped_example =
    serve-stopped queue_api 0 (prepare 6) stopped claimed stopped-IsSound refl refl claimed-served

-- The callback is run when the host thread yields for the first time.
abbrev IsPrompt : Outcome ℕ × Backend queue_api → Type 0
IsPrompt (value task, s) = RunsCallback queue_api 0 task s
IsPrompt (throws e, s) = Unit {0}

run_call-Answers_example :
    (r : Outcome (Unit {0}) × Backend queue_api) × (run_call queue_api 2
        (gate tt 30 (10 ∷ []) 5)
        running
      ≡ some r)
unfolding submission
run_call-Answers_example =
    run_call-Answers queue_api 0 2 (gate tt 30 (10 ∷ []) 5) running
      (λ task s e. subst IsPrompt e refl) (omega arith)
