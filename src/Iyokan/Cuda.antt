-- ===== src/Iyokan/Cuda.antt =====
-- src/iyokan-starpu-codelets.cpp in a build with `USE_CUFHEPP`: `ensureStarpu`, `shutdownIyokanStarpu`
-- and the end of the process, with src/iyokan-cufhepp-starpu.cu.
pub mod Keys
pub mod Handlers
pub mod Registration
pub mod Exit
use tangor.Base.{ℕ, ◌≡◌, ◌&&◌, false, List, [], ◌∷◌, not, if◌then◌else◌}
use tangor.StarpuApi.{StarpuApi}
use tangor.Iyokan.Sessions.{initial}
use tangor.Cufhepp.{Devices, Cufhepp, initialize_iyokan_cufhepp, cufhepp_clean_up}
use tangor.Iyokan.{
  Outcome, value, throws, then_do, Backend, is_zero, ensure_starpu_runtime, ensure_starpu,
  configure_iyokan_starpu, shutdown_iyokan_starpu,
}

-- What is done in this order: `cufhe::Initialize` with a key, `cufhe::CleanUp`,
-- `starpu_task_wait_for_all` and `starpu_shutdown`.
pub data Event : Type 0 where
  initialized_with : ℕ → Event
  cleaned_up waited shut_down : Event

-- The functions that are passed to `std::atexit`.
pub data ExitHandler : Type 0 where
  shutdown_handler cleanup_handler : ExitHandler

module _ (api : StarpuApi) where
  -- The globals of both files, the registered functions and the events, the last first.
  pub record Process : Type 0 where
    pub backend : Backend api
    pub cufhepp : Cufhepp
    pub handlers : List ExitHandler
    pub events : List Event

  -- The process before its first request.
  abbrev pub fresh_process : api.Machine → Process
  fresh_process m = record {
    backend = initial api m;
    cufhepp = record { initialized = false; calls = []; lines = [] };
    handlers = [];
    events = [];
  }

  -- `std::atexit(shutdownIyokanStarpu)` in the function that `std::call_once` calls.
  unfoldable pub register_shutdown : Backend api → Backend api → List ExitHandler → List ExitHandler
  register_shutdown before after handlers =
      if before.starpu_init_once
      then handlers
      else if is_zero after.starpu_init_status
      then shutdown_handler ∷ handlers
      else handlers

  -- `initializeIyokanCufhepp`, with what it registers.
  unfoldable pub initialize_cuda : Devices → ℕ → Process → Process
  unfolding initialize_iyokan_cufhepp
  initialize_cuda d key p =
      let (enabled, cufhepp) = initialize_iyokan_cufhepp d key p.cufhepp in
      if not p.cufhepp.initialized && enabled
      then record p {
        cufhepp = cufhepp;
        handlers = cleanup_handler ∷ p.handlers;
        events = initialized_with key ∷ p.events;
      }
      else record p { cufhepp = cufhepp }

  -- `ensureStarpu`.
  unfoldable pub ensure_starpu_cuda : Devices → ℕ → Process → Outcome (Unit {0}) × Process
  unfolding ensure_starpu register_shutdown initialize_cuda
  ensure_starpu_cuda d key p =
      let (r, b) = ensure_starpu api key p.backend in
      let handlers = register_shutdown p.backend b p.handlers in
      then_do (r, record p { backend = b; handlers = handlers })
        λ _ q. (value tt, initialize_cuda d key q)

  -- `ensureStarpuRuntime`, which the calls without a key begin with.
  unfoldable pub ensure_runtime_cuda : Process → Outcome (Unit {0}) × Process
  unfolding ensure_starpu_runtime register_shutdown
  ensure_runtime_cuda p =
      let (r, b) = ensure_starpu_runtime api p.backend in
      (r, record p { backend = b; handlers = register_shutdown p.backend b p.handlers })

  -- `shutdownIyokanStarpu`.
  unfoldable pub shutdown_cuda : Process → Process
  unfolding shutdown_iyokan_starpu cufhepp_clean_up
  shutdown_cuda p =
      let cleaned =
        if p.cufhepp.initialized then cleaned_up ∷ waited ∷ p.events else waited ∷ p.events in
      if not p.backend.starpu_running then p else record p {
        backend = shutdown_iyokan_starpu api p.backend;
        cufhepp = cufhepp_clean_up p.cufhepp;
        events = shut_down ∷ cleaned;
      }

  -- `cleanupIyokanCufhepp`.
  unfoldable pub cleanup_cuda : Process → Process
  unfolding cufhepp_clean_up
  cleanup_cuda p = record p {
    cufhepp = cufhepp_clean_up p.cufhepp;
    events = if p.cufhepp.initialized then cleaned_up ∷ p.events else p.events;
  }

  -- The end of the process: the registered functions, the last first.
  unfoldable pub run_handlers : List ExitHandler → Process → Process
  unfolding shutdown_cuda cleanup_cuda
  run_handlers [] p = p
  run_handlers (shutdown_handler ∷ hs) p = run_handlers hs (shutdown_cuda p)
  run_handlers (cleanup_handler ∷ hs) p = run_handlers hs (cleanup_cuda p)

  unfoldable pub exit_process : Process → Process
  unfolding run_handlers
  exit_process p = run_handlers p.handlers p

  -- A state that differs in nothing of the lifetime.
  pub record SameLife (b s : Backend api) : Type 0 where
    pub same_key : s.current_eval_key ≡ b.current_eval_key
    pub same_once : s.starpu_init_once ≡ b.starpu_init_once
    pub same_status : s.starpu_init_status ≡ b.starpu_init_status
    pub same_running : s.starpu_running ≡ b.starpu_running

  -- Requests in a row, whatever devices there are at each time. Submissions, waits, captures, host
  -- writes and configurations change nothing of the lifetime.
  pub data Lives : Process → Process → Type 0 where
    begins : {p : Process} → Lives p p
    prepares :
        {p q : Process} (d : Devices) (key : ℕ) → Lives p q → Lives p (ensure_starpu_cuda d key q).1
    starts : {p q : Process} → Lives p q → Lives p (ensure_runtime_cuda q).1
    shuts_down : {p q : Process} → Lives p q → Lives p (shutdown_cuda q)
    works :
        {p q : Process} (b : Backend api)
        → SameLife q.backend b
        → Lives p q
        → Lives p (record q { backend = b })
