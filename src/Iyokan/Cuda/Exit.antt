-- ===== src/Iyokan/Cuda/Exit.antt =====
-- The end of a process with src/iyokan-starpu-codelets.cpp and src/iyokan-cufhepp-starpu.cu.
use tangor.Base.{
  ◌≡◌, refl, sym, ◌∙◌, ap, Bool, true, false, not, List, ◌∷◌, Holds-if, Bool-cases, inl, inr, arith,
}
use tangor.StarpuApi.{StarpuApi}
use tangor.Iyokan.Sessions.{initial}
use tangor.Iyokan.Lifetime.{shutdown-stopped}
use tangor.Iyokan.Cuda.{
  Event, cleaned_up, waited, shut_down, ExitHandler, Process, shutdown_cuda, cleanup_cuda,
  run_handlers, exit_process, fresh_process, Lives,
}
use tangor.Iyokan.Cuda.Handlers.{
  Ordered, first, later, Registered, nothing, ordered, on_top, clean_up-off, started, IsRegistered,
}
use tangor.Iyokan.Cuda.Registration.{Lives-IsRegistered}

module _ (api : StarpuApi) where
  -- A process that has not been initialized: its handlers shut StarPU down.
  record Stopped (p : Process api) (q : Process api) : Type 0 where
    pub cuda_off : q.cufhepp.initialized ≡ false
    pub starpu_off : q.backend.starpu_running ≡ false
    pub last_events : p.backend.starpu_running ≡ true → q.events ≡ shut_down ∷ waited ∷ p.events

  shutdown_cuda-Stopped :
      (p : Process api) → p.cufhepp.initialized ≡ false → Stopped p (shutdown_cuda api p)
  unfolding shutdown_cuda
  shutdown_cuda-Stopped p off =
      Holds-if (Stopped p) (not p.backend.starpu_running) p _
        (λ e. record {
          cuda_off = off;
          starpu_off = ground arith;
          last_events = λ on. absurd (let f : not true ≡ true = ap not (sym on) ∙ e in cc);
        })
        λ e. record {
          cuda_off = clean_up-off p.cufhepp;
          starpu_off = shutdown-stopped api p.backend (ground arith);
          last_events = λ on. rw off refl;
        }

  run_handlers-Stopped :
      (hs : List ExitHandler) (p : Process api)
      → Ordered hs
      → p.cufhepp.initialized ≡ false
      → Stopped p (run_handlers api hs p)
  unfolding run_handlers cleanup_cuda
  run_handlers-Stopped _ p first off = shutdown_cuda-Stopped p off
  run_handlers-Stopped _ p (later {hs = hs} o) off =
      let r = run_handlers-Stopped hs (cleanup_cuda api p) o (clean_up-off p.cufhepp) in
      record {
        cuda_off = r.cuda_off;
        starpu_off = r.starpu_off;
        last_events = λ on.
            r.last_events on ∙ ap (λ (es : List Event). shut_down ∷ waited ∷ es) (rw off refl);
      }

  -- What the end of a process leaves.
  pub record Exits (p q : Process api) : Type 0 where
    pub cuda_off : q.cufhepp.initialized ≡ false
    pub starpu_off : q.backend.starpu_running ≡ false
    pub early_clean_up :
        p.backend.starpu_running ≡ true
        → p.cufhepp.initialized ≡ true
        → q.events ≡ shut_down ∷ waited ∷ cleaned_up ∷ p.events

  exits :
      (p : Process api) (st on : Bool) (hs : List ExitHandler)
      → st ≡ started api p.backend
      → on ≡ p.cufhepp.initialized
      → IsRegistered api p
      → Registered st on hs
      → Exits p (run_handlers api hs p)
  unfolding run_handlers cleanup_cuda
  exits p _ _ _ st off k nothing = record {
    cuda_off = sym off;
    starpu_off = elim (Bool-cases p.backend.starpu_running) [
      | inl on ↦ let e = st ∙ k.was_started on in cc
      | inr e ↦ e
    ];
    early_clean_up = λ _ on. absurd (let f : false ≡ true = off ∙ on in cc);
  }
  exits p _ _ hs st off k (ordered o) =
      let s = run_handlers-Stopped hs p o (sym off) in
      record {
        cuda_off = s.cuda_off;
        starpu_off = s.starpu_off;
        early_clean_up = λ _ on. absurd (let f : false ≡ true = off ∙ on in cc);
      }
  exits p _ _ _ st on k (on_top {hs = hs} o) =
      let s = run_handlers-Stopped hs (cleanup_cuda api p) o (clean_up-off p.cufhepp) in
      record {
        cuda_off = s.cuda_off;
        starpu_off = s.starpu_off;
        early_clean_up = λ running _.
            s.last_events running
            ∙ ap (λ (es : List Event). shut_down ∷ waited ∷ es) (rw (← on) refl);
      }

  shutdown_cuda-events :
      (p : Process api)
      → p.backend.starpu_running ≡ true
      → p.cufhepp.initialized ≡ true
      → (shutdown_cuda api p).events ≡ shut_down ∷ cleaned_up ∷ waited ∷ p.events
  unfolding shutdown_cuda
  shutdown_cuda-events p running on = rw (running, on) refl

  -- Whatever requests a process with cuFHEpp made and whatever devices there were, its end leaves cuFHEpp
  -- cleaned up and StarPU shut down. If both were in use then, its end cleans cuFHEpp up before it waits for
  -- the submitted tasks, where a shutdown on request cleans it up after the wait.
  pub exit_process-Exits :
      (m : api.Machine) (p : Process api)
      → Lives api (fresh_process api m) p
      → Exits p (exit_process api p)
        × (p.backend.starpu_running ≡ true
            → p.cufhepp.initialized ≡ true
            → (shutdown_cuda api p).events ≡ shut_down ∷ cleaned_up ∷ waited ∷ p.events)
  unfolding exit_process initial
  exit_process-Exits m p lives =
      let k =
        Lives-IsRegistered api (fresh_process api m) p lives
          (record { registered = nothing; was_started = λ e. cc }) in
      (exits p _ _ p.handlers refl refl k k.registered, shutdown_cuda-events p)
