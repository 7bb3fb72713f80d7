-- ===== src/Iyokan/Cuda/Keys.antt =====
-- The key that cuFHEpp holds while src/iyokan-starpu-codelets.cpp runs.
use tangor.Base.{
  ℕ, ◌≡◌, refl, sym, subst, ◌∙◌, ◌==◌, ==→eq, ap, Bool, true, false, not, ◌&&◌, List, [], ◌∷◌,
  Option, none, some, Holds-if, Holds-option, if◌then◌else◌,
}
use tangor.StarpuApi.{StarpuApi}
use tangor.Cufhepp.{
  CudaCall, set_gpu_num, initialize, clean_up, at_exit, Devices, Cufhepp, usable_devices,
  initialize_iyokan_cufhepp, cufhepp_clean_up,
}
use tangor.Iyokan.{
  Outcome, value, throws, then_do, not_initialized, Backend, is_zero, init_once,
  ensure_starpu_runtime, claim_key, ensure_starpu,
}
use tangor.Iyokan.Rules.{Ends, ends, stops, Ends-then_do, Ends-if, Ends-map}
use tangor.Iyokan.Cuda.{
  ExitHandler, Process, initialize_cuda, ensure_starpu_cuda, ensure_runtime_cuda, shutdown_cuda,
  Lives, begins, prepares, starts, shuts_down, works,
}

-- The key of the last initialization that was not cleaned up, if any.
abbrev pub held : List CudaCall → Option ℕ
held [] = none
held (initialize key ∷ calls) = some key
held (clean_up ∷ calls) = none
held (set_gpu_num n ∷ calls) = held calls
held (at_exit ∷ calls) = held calls

-- The flag of cuFHEpp, the owner of the runtime, and the key that cuFHEpp holds.
pub data HoldsKey : Bool → Option ℕ → Option ℕ → Type 0 where
  no_key : {owner : Option ℕ} → HoldsKey false owner none
  owner_key : {key : ℕ} → HoldsKey true (some key) (some key)

HoldsKey-kept :
    {on : Bool} {owner owner' held : Option ℕ}
    → ((key : ℕ) → owner ≡ some key → owner' ≡ some key)
    → HoldsKey on owner held
    → HoldsKey on owner' held
HoldsKey-kept keep no_key = no_key
HoldsKey-kept keep (owner_key {key = key}) =
    subst (λ (o : Option ℕ). HoldsKey true o (some key)) (sym (keep key refl)) owner_key

HoldsKey-off :
    {on : Bool} {owner owner' held : Option ℕ}
    → on ≡ false
    → HoldsKey on owner held
    → HoldsKey on owner' held
HoldsKey-off e no_key = no_key
HoldsKey-off e owner_key = cc

abbrev Owned : Option ℕ → Cufhepp → Type 0
Owned owner c = HoldsKey c.initialized owner (held c.calls)

initialize-Owned :
    (d : Devices) (key : ℕ) (owner : Option ℕ) (c : Cufhepp)
    → owner ≡ some key
    → Owned owner c
    → Owned owner (initialize_iyokan_cufhepp d key c).1
unfolding initialize_iyokan_cufhepp
initialize-Owned d key owner c mine k =
    Holds-if (λ (r : Bool × Cufhepp). Owned owner r.1) c.initialized _ _ (λ _. k)
      λ _.
        Holds-option (λ (r : Bool × Cufhepp). Owned owner r.1) (usable_devices d) _ _
          (λ _. Holds-if (Owned owner) (d.cuda_workers == 0) _ _ (λ _. k) λ _. k)
          λ n _. subst (λ (o : Option ℕ). HoldsKey true o (some key)) (sym mine) owner_key

clean_up-Owned :
    (owner owner' : Option ℕ) (c : Cufhepp) → Owned owner c → Owned owner' (cufhepp_clean_up c)
unfolding cufhepp_clean_up
clean_up-Owned owner owner' c k =
    Holds-if (Owned owner') c.initialized _ _ (λ _. no_key) λ off. HoldsKey-off off k

module _ (api : StarpuApi) where
  -- Whoever owns the runtime keeps it.
  abbrev Keeps : Backend api → Backend api → Type 0
  Keeps b s = (key : ℕ) → b.current_eval_key ≡ some key → s.current_eval_key ≡ some key

  pub ensure_runtime-Keeps :
      (b : Backend api) → Ends (λ r s. Keeps b s) (λ s. Keeps b s) (ensure_starpu_runtime api b)
  unfolding ensure_starpu_runtime init_once
  ensure_runtime-Keeps b =
      Holds-if
        (λ (s : Backend api).
          Ends (λ r u. Keeps b u) (λ u. Keeps b u)
            (if is_zero s.starpu_init_status then (value tt, s) else (throws not_initialized, s)))
        b.starpu_init_once b (init_once api b)
        (λ _. Ends-if (is_zero b.starpu_init_status) (λ _. ends (λ k e. e)) λ _. stops (λ k e. e))
        λ _.
          Ends-if (is_zero (init_once api b).starpu_init_status) (λ _. ends (λ k e. e))
            λ _. stops (λ k e. e)

  claim_key-Keeps :
      (key : ℕ) (b : Backend api)
      → Ends
          (λ r s. Keeps b s × (s.current_eval_key ≡ some key))
          (λ s. Keeps b s)
          (claim_key api key b)
  unfolding claim_key
  claim_key-Keeps key b =
      Holds-option (Ends (λ r s. Keeps b s × (s.current_eval_key ≡ some key)) (λ s. Keeps b s))
        b.current_eval_key _ _
        (λ free. ends (λ k e. absurd (let f : none ≡ some k = sym free ∙ e in cc), refl))
        λ k taken.
          Ends-if (k == key) (λ e. ends (λ j at. at, taken ∙ ap some (==→eq k key e)))
            λ _. stops (λ j at. at)

  ensure_starpu-Keeps :
      (key : ℕ) (b : Backend api)
      → Ends
          (λ r s. Keeps b s × (s.current_eval_key ≡ some key))
          (λ s. Keeps b s)
          (ensure_starpu api key b)
  unfolding ensure_starpu
  ensure_starpu-Keeps key b = Ends-then_do (ensure_runtime-Keeps b) λ _ s keep.
      Ends-map (claim_key-Keeps key s) (λ _ u (more, mine). (λ k e. more k (keep k e), mine))
        λ u more. λ k e. more k (keep k e)

  -- Where cuFHEpp is initialized, it holds the key that owns the runtime; elsewhere it holds none.
  abbrev pub IsKeyed : Process api → Type 0
  IsKeyed p = Owned p.backend.current_eval_key p.cufhepp

  initialize_cuda-IsKeyed :
      (d : Devices) (key : ℕ) (p : Process api)
      → p.backend.current_eval_key ≡ some key
      → IsKeyed p
      → IsKeyed (initialize_cuda api d key p)
  unfolding initialize_cuda
  initialize_cuda-IsKeyed d key p mine k =
      let c = initialize-Owned d key p.backend.current_eval_key p.cufhepp mine k in
      let (enabled, _) = initialize_iyokan_cufhepp d key p.cufhepp in
      Holds-if IsKeyed (not p.cufhepp.initialized && enabled) _ _ (λ _. c) λ _. c

  ensured-IsKeyed :
      (d : Devices) (key : ℕ) (p : Process api) (m : Outcome (Unit {0}) × Backend api)
      (handlers : List ExitHandler)
      → Ends (λ r s. Keeps p.backend s × (s.current_eval_key ≡ some key)) (λ s. Keeps p.backend s) m
      → IsKeyed p
      → IsKeyed
          (then_do {0, 0}
            (m.0, record p { backend = m.1; handlers = handlers })
            (λ _ q. (value tt, initialize_cuda api d key q))).1
  ensured-IsKeyed d key p (value r, b) handlers (ends (keep, mine)) k =
      initialize_cuda-IsKeyed d key _ mine (HoldsKey-kept keep k)
  ensured-IsKeyed d key p (throws e, b) handlers (stops keep) k = HoldsKey-kept keep k

  ensure_starpu_cuda-IsKeyed :
      (d : Devices) (key : ℕ) (p : Process api)
      → IsKeyed p
      → IsKeyed (ensure_starpu_cuda api d key p).1
  unfolding ensure_starpu_cuda
  ensure_starpu_cuda-IsKeyed d key p k =
      ensured-IsKeyed d key p (ensure_starpu api key p.backend) _
        (ensure_starpu-Keeps key p.backend) k

  ends-either :
      {A : Type 0} {P : Backend api → Type 0} {m : Outcome A × Backend api}
      → Ends (λ r s. P s) P m
      → P m.1
  ends-either (ends p) = p
  ends-either (stops p) = p

  ensure_runtime_cuda-IsKeyed :
      (p : Process api) → IsKeyed p → IsKeyed (ensure_runtime_cuda api p).1
  unfolding ensure_runtime_cuda
  ensure_runtime_cuda-IsKeyed p k = HoldsKey-kept (ends-either (ensure_runtime-Keeps p.backend)) k

  shutdown_cuda-IsKeyed : (p : Process api) → IsKeyed p → IsKeyed (shutdown_cuda api p)
  unfolding shutdown_cuda
  shutdown_cuda-IsKeyed p k =
      Holds-if IsKeyed (not p.backend.starpu_running) p _ (λ _. k)
        λ _. clean_up-Owned _ _ p.cufhepp k

  -- Whatever requests are made in a row and whatever devices there are at each time, cuFHEpp holds the key that
  -- owns the runtime if it is initialized, and no key otherwise, if this was so at first.
  pub Lives-IsKeyed : (p q : Process api) → Lives api p q → IsKeyed p → IsKeyed q
  Lives-IsKeyed p _ begins k = k
  Lives-IsKeyed p _ (prepares {q = q} d key rest) k =
      ensure_starpu_cuda-IsKeyed d key q (Lives-IsKeyed p q rest k)
  Lives-IsKeyed p _ (starts {q = q} rest) k =
      ensure_runtime_cuda-IsKeyed q (Lives-IsKeyed p q rest k)
  Lives-IsKeyed p _ (shuts_down {q = q} rest) k = shutdown_cuda-IsKeyed q (Lives-IsKeyed p q rest k)
  Lives-IsKeyed p _ (works {q = q} b same rest) k =
      HoldsKey-kept (λ key e. same.same_key ∙ e) (Lives-IsKeyed p q rest k)
