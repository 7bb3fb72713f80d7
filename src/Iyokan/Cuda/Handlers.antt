-- ===== src/Iyokan/Cuda/Handlers.antt =====
-- The functions that src/iyokan-starpu-codelets.cpp and src/iyokan-cufhepp-starpu.cu pass to `std::atexit`.
use tangor.Base.{
  ◌⊎◌, ℕ, ◌≡◌, refl, ◌==◌, Bool, true, false, not, ◌&&◌, ◌||◌, List, [], ◌∷◌, Holds-if,
  Holds-option, if◌then◌else◌, Bool-cases, inl, inr, arith,
}
use tangor.StarpuApi.{StarpuApi}
use tangor.Cufhepp.{Devices, Cufhepp, usable_devices, initialize_iyokan_cufhepp, cufhepp_clean_up}
use tangor.Iyokan.{Backend, is_zero}
use tangor.Iyokan.Cuda.{ExitHandler, shutdown_handler, cleanup_handler, Process, register_shutdown}

-- The handler of the runtime was registered first.
pub data Ordered : List ExitHandler → Type 0 where
  first : Ordered (shutdown_handler ∷ [])
  later : {hs : List ExitHandler} → Ordered hs → Ordered (cleanup_handler ∷ hs)

-- What is registered, by whether StarPU was started and whether cuFHEpp is initialized.
pub data Registered : Bool → Bool → List ExitHandler → Type 0 where
  nothing : Registered false false []
  ordered : {hs : List ExitHandler} → Ordered hs → Registered true false hs
  on_top : {hs : List ExitHandler} → Ordered hs → Registered true true (cleanup_handler ∷ hs)

pub initialize-flag :
    (d : Devices) (key : ℕ) (c : Cufhepp)
    → (initialize_iyokan_cufhepp d key c).1.initialized
      ≡ (c.initialized || (initialize_iyokan_cufhepp d key c).0)
unfolding initialize_iyokan_cufhepp
initialize-flag d key c =
    Holds-if (λ (r : Bool × Cufhepp). r.1.initialized ≡ (c.initialized || r.0)) c.initialized _ _
      (λ e. rw e refl)
      λ e.
        Holds-option (λ (r : Bool × Cufhepp). r.1.initialized ≡ (c.initialized || r.0))
          (usable_devices d) _ _
          (λ _. elim (Bool-cases (d.cuda_workers == 0)) [
            | inl z ↦ rw (z, e) refl
            | inr z ↦ rw (z, e) refl
          ])
          λ n _. rw e refl

pub clean_up-off : (c : Cufhepp) → (cufhepp_clean_up c).initialized ≡ false
unfolding cufhepp_clean_up
clean_up-off c =
    Holds-if (λ (s : Cufhepp). s.initialized ≡ false) c.initialized _ _ (λ _. refl) λ e. e

pub Registered-on :
    {on : Bool} {hs : List ExitHandler}
    → Registered true on hs
    → (enabled : Bool)
    → Registered true (on || enabled) (if not on && enabled then cleanup_handler ∷ hs else hs)
Registered-on (ordered o) true = on_top o
Registered-on (ordered o) false = ordered o
Registered-on (on_top o) enabled = on_top o

pub Registered-off :
    {st on : Bool} {hs : List ExitHandler} → Registered st on hs → Registered st false hs
Registered-off nothing = nothing
Registered-off (ordered o) = ordered o
Registered-off (on_top o) = ordered (later o)

module _ (api : StarpuApi) where
  abbrev pub started : Backend api → Bool
  started b = b.starpu_init_once && is_zero b.starpu_init_status

  -- What is registered, and that a running StarPU was started.
  pub record IsRegistered (p : Process api) : Type 0 where
    pub registered : Registered (started p.backend) p.cufhepp.initialized p.handlers
    pub was_started : p.backend.starpu_running ≡ true → started p.backend ≡ true

  Registered-unstarted :
      {st on : Bool} {hs : List ExitHandler}
      → st ≡ false
      → Registered st on hs
      → (on ≡ false) × (hs ≡ [])
  Registered-unstarted e nothing = (refl, refl)
  Registered-unstarted e (ordered o) = cc
  Registered-unstarted e (on_top o) = cc

  -- A start of StarPU, or none.
  pub record Starts (b s : Backend api) : Type 0 where
    pub once : s.starpu_init_once ≡ true
    pub same_status : b.starpu_init_once ≡ true → s.starpu_init_status ≡ b.starpu_init_status
    pub running : s.starpu_running ≡ true → (b.starpu_running ≡ true) ⊎ (started s ≡ true)

  pub register-Registered :
      (b s : Backend api) (on : Bool) (hs : List ExitHandler)
      → Starts b s
      → Registered (started b) on hs
      → Registered (started s) on (register_shutdown api b s hs)
  unfolding register_shutdown
  register-Registered b s on hs w r = elim (Bool-cases b.starpu_init_once) [
    | inl e ↦ rw (e, w.once, w.same_status e) (rw e at r)
    | inr e ↦
        let (off, empty) = Registered-unstarted (ground arith) r in
        elim (Bool-cases (is_zero s.starpu_init_status)) [
          | inl z ↦ rw (e, w.once, z, off, empty) (ordered first)
          | inr z ↦ rw (e, w.once, z, off, empty) nothing
        ]
  ]
