-- ===== src/Iyokan/Memory/Starting.antt =====
-- The start of the runtime in src/iyokan-starpu-codelets.cpp, for the values in memory.
use tangor.Base.{ℕ, ◌≡◌, refl, ◌∙◌, [], none}
use tangor.StarpuApi.{StarpuApi}
use tangor.StarpuApi.Memory.{Place, tlwe, variable, Memory, MemoryLaws}
use tangor.Iyokan.{
  value, Backend, init_once, conf_of, ensure_starpu_runtime, claim_key, ensure_starpu, is_zero,
  find_handle,
}
use tangor.Iyokan.Sessions.{initial}
use tangor.Iyokan.Rules.{Ends, ends, stops, Ends-then_do, Ends-mono, Ends-if, Ends-value}
use tangor.Iyokan.Memory.{IsStarted, handle_of, Linked, value_in, value_at, IsLinked}
use tangor.Iyokan.Memory.Registry.{Throws}
use tangor.Iyokan.Memory.Insertion.{is_zero-eq}
use tangor.Iyokan.Memory.Entries.{claim_key-Extends}

handle_of-empty : (p : Place) → handle_of [] [] p ≡ none
unfolding handle_of find_handle
handle_of-empty (tlwe a) = refl
handle_of-empty (variable a) = refl

module _ {api : StarpuApi} (y : Memory api) where
  -- A started runtime that has registered nothing: every value is where it was.
  pub record Starts (b s : Backend api) : Type 0 where
    pub started : IsStarted s
    pub linked : IsLinked y s
    pub same_memory : (p : Place) → value_at y s p ≡ y.host b.machine p
    pub same_capture : s.capture_active ≡ b.capture_active

  Linked-empty : {m : api.Machine} → y.Up m → ((h : ℕ) → y.stands_for m h ≡ none) → Linked y m [] []
  Linked-empty up free = record {
    up = up;
    stands = λ p h at. let e = handle_of-empty p in cc;
    recorded = λ p h at. let e = free h in cc;
  }

  value_in-empty : (m : api.Machine) (p : Place) → value_in y m (handle_of [] [] p) p ≡ y.host m p
  unfolding value_in
  value_in-empty m p = rw (handle_of-empty p) refl

  -- The first state, with what `configureIyokanStarpu` set.
  abbrev pub configured : ℕ → ℕ → api.Machine → Backend api
  configured cpus gpus m = record (initial api m) {
    configured_cpu_workers = cpus;
    configured_cuda_devices = gpus;
  }

  module _ (laws : MemoryLaws y) where
    ensure_starpu-Starts :
        (key cpus gpus : ℕ) (m : api.Machine)
        → Ends
            (λ _ s. Starts (configured cpus gpus m) s)
            (Throws y)
            (ensure_starpu api key (configured cpus gpus m))
    unfolding ensure_starpu ensure_starpu_runtime init_once claim_key initial
    ensure_starpu-Starts key cpus gpus m =
        let conf = conf_of api (configured cpus gpus m) in
        Ends-then_do
          (Ends-if {P = λ _ s. Starts (configured cpus gpus m) s} (is_zero (api.init conf m).0)
            (λ e.
              let (up, free, same) = laws.init_starts conf m (is_zero-eq _ e) in
              ends (record {
                started = refl;
                linked = Linked-empty up free;
                same_memory = λ p. value_in-empty (api.init conf m).1 p ∙ same p;
                same_capture = refl;
              }))
            (λ _. stops tt))
          λ _ s w. Ends-mono (claim_key-Extends y key s w.linked) λ _ u e. record {
            started = e.same_once ∙ w.started;
            linked = e.linked;
            same_memory = λ p. e.same_values p ∙ w.same_memory p;
            same_capture = e.same_capture ∙ w.same_capture;
          }

    -- The first preparation of the runtime that does not throw starts it, and every value stays where it
    -- was in memory.
    pub prepared-Starts :
        (key cpus gpus : ℕ) (m : api.Machine) (s : Backend api)
        → ensure_starpu api key (configured cpus gpus m) ≡ (value tt, s)
        → Starts (configured cpus gpus m) s
    prepared-Starts key cpus gpus m s e = Ends-value tt s (ensure_starpu-Starts key cpus gpus m) e
