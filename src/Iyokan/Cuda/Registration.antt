-- ===== src/Iyokan/Cuda/Registration.antt =====
-- What is registered after the requests to src/iyokan-starpu-codelets.cpp in a process.
use tangor.Base.{
  ◌⊎◌, ℕ, ◌≡◌, refl, sym, ◌∙◌, ◌==◌, Bool, true, false, not, ◌&&◌, Holds-if, Holds-option,
  if◌then◌else◌, inl, inr, arith,
}
use tangor.StarpuApi.{StarpuApi}
use tangor.Cufhepp.{Devices, initialize_iyokan_cufhepp}
use tangor.Iyokan.Rules.{Ends, ends, stops, Ends-then_do, Ends-if}
use tangor.Iyokan.{
  not_initialized, init_once, ensure_starpu_runtime, claim_key, ensure_starpu, Outcome, value,
  throws, then_do, Backend, is_zero,
}
use tangor.Iyokan.Lifetime.{shutdown-stopped, shutdown-once}
use tangor.Iyokan.Cuda.{
  Process, register_shutdown, initialize_cuda, ensure_starpu_cuda, ensure_runtime_cuda,
  shutdown_cuda, Lives, begins, prepares, starts, shuts_down, works,
}
use tangor.Iyokan.Cuda.Handlers.{
  initialize-flag, clean_up-off, Registered-on, Registered-off, started, IsRegistered, Starts,
  register-Registered,
}

module _ (api : StarpuApi) where
  init_once-Starts : (b : Backend api) → b.starpu_init_once ≡ false → Starts api b (init_once api b)
  unfolding init_once
  init_once-Starts b e = record {
    once = refl;
    same_status = λ on. absurd (let f : true ≡ false = sym on ∙ e in cc);
    running =
        Holds-if
          (λ (r : Bool).
            r ≡ true → (b.starpu_running ≡ true) ⊎ (started api (init_once api b) ≡ true))
          (is_zero (init_once api b).starpu_init_status) _ _ (λ z _. inr z) λ _ on. inl on;
  }

  ensure_runtime-Starts :
      (b : Backend api)
      → Ends
          (λ r s. Starts api b s × (started api s ≡ true))
          (λ s. Starts api b s)
          (ensure_starpu_runtime api b)
  unfolding ensure_starpu_runtime
  ensure_runtime-Starts b =
      Holds-if
        (λ (s : Backend api).
          Ends (λ r u. Starts api b u × (started api u ≡ true)) (λ u. Starts api b u)
            (if is_zero s.starpu_init_status then (value tt, s) else (throws not_initialized, s)))
        b.starpu_init_once b (init_once api b)
        (λ e.
          let w : Starts api b b = record { once = e; same_status = λ _. refl; running = inl } in
          Ends-if (is_zero b.starpu_init_status) (λ z. ends (w, rw (e, z) refl)) λ _. stops w)
        λ e.
          let w = init_once-Starts b e in
          Ends-if (is_zero (init_once api b).starpu_init_status)
            (λ z. ends (w, rw (w.once, z) refl)) λ _. stops w

  claim_key-Starts :
      (key : ℕ) (b s : Backend api)
      → Starts api b s
      → started api s ≡ true
      → Ends
          (λ r u. Starts api b u × (started api u ≡ true))
          (λ u. Starts api b u)
          (claim_key api key s)
  unfolding claim_key
  claim_key-Starts key b s w st =
      Holds-option (Ends (λ r u. Starts api b u × (started api u ≡ true)) (λ u. Starts api b u))
        s.current_eval_key _ _
        (λ _. ends (record { once = w.once; same_status = w.same_status; running = w.running }, st))
        λ k _. Ends-if (k == key) (λ _. ends (w, st)) λ _. stops w

  ensure_starpu-Starts :
      (key : ℕ) (b : Backend api)
      → Ends
          (λ r s. Starts api b s × (started api s ≡ true))
          (λ s. Starts api b s)
          (ensure_starpu api key b)
  unfolding ensure_starpu
  ensure_starpu-Starts key b =
      Ends-then_do (ensure_runtime-Starts b) λ _ s (w, st). claim_key-Starts key b s w st

  -- The process after a start of StarPU.
  abbrev moved : Process api → Backend api → Process api
  moved p b = record p { backend = b; handlers = register_shutdown api p.backend b p.handlers }

  moved-IsRegistered :
      (p : Process api) (b : Backend api)
      → Starts api p.backend b
      → IsRegistered api p
      → IsRegistered api (moved p b)
  moved-IsRegistered p b w r = record {
    registered =
        register-Registered api p.backend b p.cufhepp.initialized p.handlers w r.registered;
    was_started = λ on. elim (w.running on) [
      | inl before ↦
          let st = r.was_started before in
          let once : p.backend.starpu_init_once ≡ true = ground arith in
          rw (w.once, w.same_status once) (ground arith)
      | inr st ↦ st
    ];
  }

  initialize_cuda-IsRegistered :
      (d : Devices) (key : ℕ) (p : Process api)
      → started api p.backend ≡ true
      → IsRegistered api p
      → IsRegistered api (initialize_cuda api d key p)
  unfolding initialize_cuda
  initialize_cuda-IsRegistered d key p st r =
      let on = p.cufhepp.initialized in
      let enabled = (initialize_iyokan_cufhepp d key p.cufhepp).0 in
      let flag = initialize-flag d key p.cufhepp in
      let now = Registered-on (rw st at r.registered) enabled in
      Holds-if (IsRegistered api) (not on && enabled) _ _
        (λ e. record { registered = rw (st, flag) (rw e at now); was_started = r.was_started })
        λ e. record { registered = rw (st, flag) (rw e at now); was_started = r.was_started }

  ensured-IsRegistered :
      (d : Devices) (key : ℕ) (p : Process api) (m : Outcome (Unit {0}) × Backend api)
      → Ends
          (λ r s. Starts api p.backend s × (started api s ≡ true))
          (λ s. Starts api p.backend s)
          m
      → IsRegistered api p
      → IsRegistered api
          (then_do {0, 0} (m.0, moved p m.1) (λ _ q. (value tt, initialize_cuda api d key q))).1
  ensured-IsRegistered d key p (value r, b) (ends (w, st)) k =
      initialize_cuda-IsRegistered d key _ st (moved-IsRegistered p b w k)
  ensured-IsRegistered d key p (throws e, b) (stops w) k = moved-IsRegistered p b w k

  ensure_starpu_cuda-IsRegistered :
      (d : Devices) (key : ℕ) (p : Process api)
      → IsRegistered api p
      → IsRegistered api (ensure_starpu_cuda api d key p).1
  unfolding ensure_starpu_cuda
  ensure_starpu_cuda-IsRegistered d key p k =
      ensured-IsRegistered d key p (ensure_starpu api key p.backend)
        (ensure_starpu-Starts key p.backend) k

  run-Starts :
      {A : Type 0} {b : Backend api} {m : Outcome A × Backend api}
      → Ends (λ r s. Starts api b s × (started api s ≡ true)) (λ s. Starts api b s) m
      → Starts api b m.1
  run-Starts (ends (w, st)) = w
  run-Starts (stops w) = w

  ensure_runtime_cuda-IsRegistered :
      (p : Process api) → IsRegistered api p → IsRegistered api (ensure_runtime_cuda api p).1
  unfolding ensure_runtime_cuda
  ensure_runtime_cuda-IsRegistered p k =
      moved-IsRegistered p _ (run-Starts (ensure_runtime-Starts p.backend)) k

  shutdown_cuda-IsRegistered :
      (p : Process api) → IsRegistered api p → IsRegistered api (shutdown_cuda api p)
  unfolding shutdown_cuda
  shutdown_cuda-IsRegistered p k =
      Holds-if (IsRegistered api) (not p.backend.starpu_running) p _ (λ _. k)
        λ e.
          let (once, status) = shutdown-once api p.backend in
          record {
            registered = rw (once, status, clean_up-off p.cufhepp) (Registered-off k.registered);
            was_started = λ on. absurd (
                let f : false ≡ true = sym (shutdown-stopped api p.backend (ground arith)) ∙ on in
                cc);
          }

  pub Lives-IsRegistered :
      (p q : Process api) → Lives api p q → IsRegistered api p → IsRegistered api q
  Lives-IsRegistered p _ begins k = k
  Lives-IsRegistered p _ (prepares {q = q} d key rest) k =
      ensure_starpu_cuda-IsRegistered d key q (Lives-IsRegistered p q rest k)
  Lives-IsRegistered p _ (starts {q = q} rest) k =
      ensure_runtime_cuda-IsRegistered q (Lives-IsRegistered p q rest k)
  Lives-IsRegistered p _ (shuts_down {q = q} rest) k =
      shutdown_cuda-IsRegistered q (Lives-IsRegistered p q rest k)
  Lives-IsRegistered p _ (works {q = q} b same rest) k =
      let r = Lives-IsRegistered p q rest k in
      record {
        registered = rw (same.same_once, same.same_status) r.registered;
        was_started = λ on.
            rw (same.same_once, same.same_status) (r.was_started (sym same.same_running ∙ on));
      }
